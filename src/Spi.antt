-- ===== src/Spi.antt =====
-- libraries/src/spi_master/core/spi_master.c: the interrupt-driven SPI master. The file is compiled once
-- for each of USART0 and USART1; `Port` says which. XDATA is a list of bytes and a pointer an address
-- of 16 bits in it; a write to the data register is a result.
pub mod Transfers
use wixel_sdk.Base.{
  ℕ, zero, suc, ◌+◌, ◌-◌, ◌^◌, Bool, true, false, not, ◌||◌, List, [], ◌∷◌, ◌++◌, Option, none,
  some, if◌then◌else◌, ◌==◌, ltb, u8, u16, bit_and, bit_or, truth, get_or, set,
}
use wixel_sdk.Baud.{baud_parts}

pub data Port : Type 0 where
  usart0 usart1 : Port

pub record Spi : Type 0 where
  pub tx_pointer : ℕ
  pub rx_pointer : ℕ
  pub bytes_left : ℕ
  pub xdata : List ℕ
  pub urx_if : Bool
  pub urx_ie : Bool
  pub ea : Bool
  pub ungcr : ℕ
  pub unbaud : ℕ
  pub p2dir : ℕ
  pub p2sel : ℕ
  pub percfg : ℕ
  pub p0sel : ℕ
  pub p1sel : ℕ
  pub ip0 : ℕ
  pub ip1 : ℕ

-- `r &= ~mask` and `r |= mask` on a byte register
abbrev clear_bits : ℕ → ℕ → ℕ
clear_bits r mask = bit_and r (255 - mask)

abbrev set_bits : ℕ → ℕ → ℕ
set_bits r mask = bit_or r mask

-- INTERRUPT_PRIORITY_GROUP as a mask
abbrev priority_mask : Port → ℕ
priority_mask usart0 = 4
priority_mask usart1 = 8

init_pins : Port → Spi → Spi
init_pins usart0 s = record s {
  p2dir = clear_bits s.p2dir 0xC0;
  percfg = clear_bits s.percfg 0x01;
  p0sel = set_bits s.p0sel 40;
}
init_pins usart1 s = record s {
  p2sel = set_bits s.p2sel 0x40;
  percfg = set_bits s.percfg 0x02;
  p1sel = set_bits s.p1sel 96;
}

-- `spiNMasterInit`
unfoldable pub init : Port → Spi → Spi
unfolding init_pins
init port s = record (init_pins port s) {
  ip0 = set_bits s.ip0 (priority_mask port);
  ip1 = clear_bits s.ip1 (priority_mask port);
  urx_if = false;
  ea = true;
}

-- `spiNMasterSetFrequency`
unfoldable pub set_frequency : ℕ → Spi → Spi
set_frequency freq s =
    if ltb freq 23 || ltb 3000000 freq
    then s
    else (let (m, e) = baud_parts freq in
        record s { ungcr = bit_or (bit_and s.ungcr 0xE0) e; unbaud = u8 m })

-- `spiNMasterSetClockPolarity`, `spiNMasterSetClockPhase` and `spiNMasterSetBitOrder`: the bit is
-- cleared for idle low, leading edge and least significant bit first.
abbrev set_ungcr_bit : ℕ → Bool → Spi → Spi
set_ungcr_bit mask on s = record s {
  ungcr = if on then set_bits s.ungcr mask else clear_bits s.ungcr mask;
}

unfoldable pub set_clock_polarity : Bool → Spi → Spi
set_clock_polarity = set_ungcr_bit 128

unfoldable pub set_clock_phase : Bool → Spi → Spi
set_clock_phase = set_ungcr_bit 64

unfoldable pub set_bit_order : Bool → Spi → Spi
set_bit_order = set_ungcr_bit 32

-- `spiNMasterBusy`
unfoldable pub busy : Spi → Bool
busy s = s.urx_ie

-- `spiNMasterBytesLeft`
unfoldable pub bytes_left_now : Spi → ℕ × Spi
bytes_left_now s = (s.bytes_left, record s { urx_ie = truth s.bytes_left })

-- `spiNMasterTransfer`: the byte written to the data register, if any.
unfoldable pub transfer : ℕ → ℕ → ℕ → Spi → Option ℕ × Spi
transfer tx_buffer rx_buffer size s =
    if truth size
    then (
      some (get_or s.xdata tx_buffer 0),
      record s { tx_pointer = tx_buffer; rx_pointer = rx_buffer; bytes_left = size; urx_ie = true },
    )
    else (none, s)

-- `ISR_URX` on the byte that the data register holds: the byte written to it, if any.
unfoldable pub urx_isr : ℕ → Spi → Option ℕ × Spi
urx_isr received s =
    let left = u16 (s.bytes_left + 2 ^ 16 - 1) in
    let s' = record s {
      urx_if = false;
      xdata = set s.xdata s.rx_pointer received;
      rx_pointer = u16 (s.rx_pointer + 1);
      bytes_left = left;
    } in
    if truth left
    then (
      some (get_or s'.xdata (u16 (s.tx_pointer + 1)) 0),
      record s' { tx_pointer = u16 (s.tx_pointer + 1) },
    )
    else (none, record s' { urx_ie = false })

-- `while (bytesLeft);` while the slave's bytes come in: `none` if there are too few of them.
unfoldable pub wait : List ℕ → Spi → Option Spi
unfolding urx_isr
wait [] s = if truth s.bytes_left then none else some s
wait (b ∷ bs) s = let rest = wait bs (urx_isr b s).1 in if truth s.bytes_left then rest else some s

abbrev returned : ℕ → Option Spi → Option (ℕ × Spi)
returned local none = none
returned local (some s) = some (get_or s.xdata local 0, s)

-- `spiNMasterSendByte`, whose local variable `rxByte` is at `local`: what is written to the data
-- register, and what is returned as the slave's bytes come in.
unfoldable pub send_byte : ℕ → ℕ → List ℕ → Spi → ℕ × Option (ℕ × Spi)
unfolding wait
send_byte local byte replies s = (
  byte,
  returned local (wait replies (record s { rx_pointer = local; bytes_left = 1; urx_ie = true })),
)

-- `spiNMasterReceiveByte`
unfoldable pub receive_byte : ℕ → List ℕ → Spi → ℕ × Option (ℕ × Spi)
unfolding send_byte
receive_byte local replies s = send_byte local 0xFF replies s
