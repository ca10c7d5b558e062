-- ===== src/Uart.antt =====
-- libraries/src/uart/core/uart.c: the interrupt-driven serial port with two circular buffers of 256
-- bytes. The file is compiled once for each of USART0 and USART1; `Port` says which. Registers are
-- fields; a write to the data register is a result of the transmit routine.
pub mod Laws
use wixel_sdk.Base.{
  ℕ, zero, suc, ◌+◌, ◌-◌, ◌^◌, Bool, true, false, not, ◌||◌, List, [], ◌∷◌, Option, none, some,
  if◌then◌else◌, ◌==◌, ltb, u8, u16, bit_and, bit_or, truth, get_or, set,
}
use wixel_sdk.Baud.{baud_parts}

pub data Port : Type 0 where
  usart0 usart1 : Port

abbrev pub buffer_size : ℕ
buffer_size = 256

pub record Uart : Type 0 where
  pub tx_buffer : List ℕ
  pub tx_main : ℕ
  pub tx_int : ℕ
  pub rx_buffer : List ℕ
  pub rx_main : ℕ
  pub rx_int : ℕ
  pub parity_error : Bool
  pub framing_error : Bool
  pub buffer_full : Bool
  pub utx_if : Bool
  pub urx_if : Bool
  pub urx_ie : Bool
  pub ea : Bool
  pub ien2 : ℕ
  pub uncsr : ℕ
  pub ungcr : ℕ
  pub unucr : ℕ
  pub unbaud : ℕ
  pub p2dir : ℕ
  pub p2sel : ℕ
  pub percfg : ℕ
  pub p0sel : ℕ
  pub p1sel : ℕ
  pub ip0 : ℕ
  pub ip1 : ℕ

-- `r &= ~mask` and `r |= mask` on a byte register
abbrev pub clear_bits : ℕ → ℕ → ℕ
clear_bits r mask = bit_and r (255 - mask)

abbrev pub set_bits : ℕ → ℕ → ℕ
set_bits r mask = bit_or r mask

-- INTERRUPT_PRIORITY_GROUP as a mask, and BV_UTXNIE
abbrev priority_mask : Port → ℕ
priority_mask usart0 = 4
priority_mask usart1 = 8

abbrev pub bv_utxnie : Port → ℕ
bv_utxnie usart0 = 4
bv_utxnie usart1 = 8

init_pins : Port → Uart → Uart
init_pins usart0 u = record u {
  p2dir = clear_bits u.p2dir 0xC0;
  percfg = clear_bits u.percfg 0x01;
  p0sel = set_bits u.p0sel 8;
}
init_pins usart1 u = record u {
  p2sel = set_bits u.p2sel 0x40;
  percfg = set_bits u.percfg 0x02;
  p1sel = set_bits u.p1sel 64;
}

-- `uartNInit`
unfoldable pub init : Port → Uart → Uart
unfolding init_pins
init port u = record (init_pins port u) {
  tx_main = 0;
  tx_int = 0;
  rx_main = 0;
  rx_int = 0;
  parity_error = false;
  framing_error = false;
  buffer_full = false;
  unucr = 0x82;
  uncsr = set_bits u.uncsr 0xc0;
  ip0 = set_bits u.ip0 (priority_mask port);
  ip1 = clear_bits u.ip1 (priority_mask port);
  utx_if = true;
  urx_if = false;
  urx_ie = true;
  ea = true;
}

-- `uartNSetBaudRate`
unfoldable pub set_baud_rate : ℕ → Uart → Uart
set_baud_rate baud u =
    if ltb baud 23 || ltb 1500000 baud
    then u
    else (let (m, e) = baud_parts baud in record u { ungcr = e; unbaud = u8 m })

-- PARITY_ODD, PARITY_EVEN, PARITY_MARK, PARITY_SPACE
parity_bits : ℕ → ℕ
parity_bits parity =
    if parity == 1
    then 56
    else (if parity == 2 then 24 else (if parity == 3 then 48 else (if parity == 4 then 16 else 0)))

-- `uartNSetParity`
unfoldable pub set_parity : ℕ → Uart → Uart
unfolding parity_bits
set_parity parity u = record u { unucr = bit_or (bit_and u.unucr 0b01000111) (parity_bits parity) }

-- `uartNSetStopBits`; STOP_BITS_2 is 2
unfoldable pub set_stop_bits : ℕ → Uart → Uart
set_stop_bits stop_bits u =
    if stop_bits == 2
    then record u { unucr = set_bits u.unucr 4 }
    else record u { unucr = clear_bits u.unucr 4 }

-- `uartNTxAvailable`, UART_TX_BUFFER_FREE_BYTES: the difference is taken in 16 bits.
unfoldable pub tx_available : Uart → ℕ
tx_available u = bit_and (u16 (u.tx_int + 2 ^ 16 - u.tx_main + 2 ^ 16 - 1)) (buffer_size - 1)

-- UART_RX_BUFFER_FREE_BYTES
unfoldable pub rx_free : Uart → ℕ
rx_free u = bit_and (u16 (u.rx_main + 2 ^ 16 - u.rx_int + 2 ^ 16 - 1)) (buffer_size - 1)

-- `uartNRxAvailable`, UART_RX_BUFFER_USED_BYTES
unfoldable pub rx_available : Uart → ℕ
rx_available u = bit_and (u16 (u.rx_int + 2 ^ 16 - u.rx_main)) (buffer_size - 1)

-- `(index + 1) & (sizeof(buffer) - 1)`
abbrev pub next_index : ℕ → ℕ
next_index i = bit_and (i + 1) (buffer_size - 1)

-- `uartNTxSendByte`
unfoldable pub tx_send_byte : Port → ℕ → Uart → Uart
tx_send_byte port byte u = record u {
  tx_buffer = set u.tx_buffer u.tx_main byte;
  tx_main = next_index u.tx_main;
  ien2 = set_bits u.ien2 (bv_utxnie port);
}

-- `uartNTxSend`: the rounds of its loop are the bytes that `buffer` and `size` name.
unfoldable pub tx_send : Port → List ℕ → Uart → Uart
tx_send port [] u = u
tx_send port (byte ∷ rest) u = tx_send port rest (record u {
  tx_buffer = set u.tx_buffer u.tx_main byte;
  tx_main = next_index u.tx_main;
  ien2 = set_bits u.ien2 (bv_utxnie port);
})

-- `uartNRxReceiveByte`
unfoldable pub rx_receive_byte : Uart → ℕ × Uart
rx_receive_byte u = (get_or u.rx_buffer u.rx_main 0, record u { rx_main = next_index u.rx_main })

-- `ISR_UTX`: the byte written to the data register, if any.
unfoldable pub utx_isr : Port → Uart → Option ℕ × Uart
utx_isr port u =
    if not (u.tx_int == u.tx_main)
    then (
      some (get_or u.tx_buffer u.tx_int 0),
      record u { utx_if = false; tx_int = next_index u.tx_int },
    )
    else (none, record u { ien2 = clear_bits u.ien2 (bv_utxnie port) })

-- `ISR_URX`: `csr` is what the status register shows, `byte` what the data register holds.
unfoldable pub urx_isr : ℕ → ℕ → Uart → Uart
unfolding rx_free
urx_isr csr byte u =
    let v = record u { urx_if = false } in
    if not (truth (bit_and csr 0x18))
    then (if truth (rx_free u)
        then record v { rx_buffer = set u.rx_buffer u.rx_int byte; rx_int = next_index u.rx_int }
        else record v { buffer_full = true })
    else record v {
      framing_error = truth (bit_and csr 0x10) || u.framing_error;
      parity_error = truth (bit_and csr 0x08) || u.parity_error;
    }
