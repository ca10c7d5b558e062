-- ===== src/RadioMac.antt =====
-- libraries/src/radio_mac/radio_mac.c: the interrupt-driven layer that turns radio interrupts into
-- events for a client and restarts the radio as the client decided. The client's callback
-- `radioMacEventHandler` and its packet addresses are parameters. What the radio shows when a
-- register is read is in `Readings`; the four reads of MARCSTATE in one condition are one sample.
pub mod Laws
use wixel_sdk.Base.{
  ℕ, ◌*◌, ◌+◌, Bool, true, false, not, ◌&&◌, ◌||◌, List, ◌∷◌, if◌then◌else◌, ◌==◌, ltb, u8, bit_or,
  bit_and, truth,
}

-- RADIO_MAC_STATE_*
pub data MacState : Type 0 where
  off idle rx tx : MacState

-- RADIO_MAC_EVENT_*
pub data Event : Type 0 where
  on_tx on_rx on_rx_timeout on_strobe : Event

-- The command strobes written to RFST.
pub data Command : Type 0 where
  sfstxon scal srx stx sidle : Command

-- Where a DMA transfer starts or ends: the radio's data register RFD, or a packet in XDATA. The two
-- address registers of each end are one address here.
pub data Address (P : Type 0) : Type 0 where
  rfd : Address P
  packet : P → Address P

-- `dmaConfig.radio`
pub record Dma (P : Type 0) : Type 0 where
  pub src : Address P
  pub dest : Address P
  pub vlen_lenh : ℕ
  pub lenl : ℕ
  pub dc6 : ℕ
  pub dc7 : ℕ

-- The variables of radio_mac.c and the registers that it writes. `commands` are the writes to RFST,
-- newest first; the four `irq` flags are bits 4 to 7 of RFIF.
pub record Mac (P : Type 0) : Type 0 where
  pub strobe : Bool
  pub rx_overflow_occurred : Bool
  pub tx_underflow_occurred : Bool
  pub state : MacState
  pub commands : List Command
  pub irq_done : Bool
  pub irq_timeout : Bool
  pub irq_rxovf : Bool
  pub irq_txunf : Bool
  pub s1con : ℕ
  pub mcsm0 : ℕ
  pub mcsm1 : ℕ
  pub mcsm2 : ℕ
  pub worctrl : ℕ
  pub worevt1 : ℕ
  pub worevt0 : ℕ
  pub ien2 : ℕ
  pub rfim : ℕ
  pub ea : Bool
  pub pktlen : ℕ
  pub channr : ℕ
  pub dma_armed : Bool
  pub dma_pending : Bool
  pub dma : Dma P

-- What the volatile registers show during one run of the interrupt routine.
pub record Readings : Type 0 where
  pub done_marcstate : ℕ
  pub timeout_marcstate : ℕ
  pub listening_marcstate : ℕ
  pub pktstatus : ℕ
  pub worevt1_now : ℕ
  pub idle_marcstate : ℕ
  pub strobe_marcstate : ℕ

abbrev pub max_latency_of_strobe : ℕ
max_latency_of_strobe = 10

module _ {P : Type 0} where
  abbrev pub command : Command → Mac P → Mac P
  command c m = record m { commands = c ∷ m.commands }

  -- `radioMacStrobe`
  unfoldable pub radio_mac_strobe : Mac P → Mac P
  radio_mac_strobe m = record m { strobe = true; s1con = bit_or m.s1con 3 }

  -- `radioMacInit`, after `radioRegistersInit`.
  unfoldable pub radio_mac_init : Mac P → Mac P
  radio_mac_init m = record m {
    mcsm0 = 0x14;
    mcsm1 = 0x05;
    mcsm2 = 0x07;
    ien2 = bit_or m.ien2 0x01;
    rfim = 0xF0;
    ea = true;
    dma = record (m.dma) { dc6 = 19 };
  }

  rx_timeout_registers : ℕ → Mac P → Mac P
  rx_timeout_registers timeout m =
      if truth timeout
      then record m { mcsm2 = 0x00; worctrl = 0; worevt1 = timeout; worevt0 = 0 }
      else record m { mcsm2 = 0x07 }

  -- `radioMacRx`
  unfoldable pub radio_mac_rx : P → ℕ → Mac P → Mac P
  unfolding rx_timeout_registers
  radio_mac_rx p timeout m = record (rx_timeout_registers timeout m) {
    dma = record (m.dma) {
      src = rfd;
      dest = packet p;
      lenl = u8 (1 + m.pktlen + 2);
      vlen_lenh = 0b10000000;
      dc7 = 0x10;
    };
    state = rx;
  }

  -- `radioMacTx`
  unfoldable pub radio_mac_tx : P → Mac P → Mac P
  radio_mac_tx p m = record m {
    dma = record (m.dma) {
      src = packet p;
      dest = rfd;
      lenl = u8 (1 + m.pktlen);
      vlen_lenh = 0b00100000;
      dc7 = 0x40;
    };
    state = tx;
  }

  -- The first part of `radioMacEvent`: the radio leaves a state it should not be in, the DMA channel
  -- is disarmed, and the defaults for the next state are set.
  pub quiet : ℕ → Mac P → Mac P
  quiet marcstate m =
      let stray =
        not (marcstate == 0x12)
        && not (marcstate == 0x01)
        && not (marcstate == 0x00)
        && not (marcstate == 0x15) in
      record (if stray then command sfstxon m else m) {
        dma_armed = false;
        dma_pending = false;
        state = rx;
        mcsm2 = 0x07;
      }

  -- The `switch` at the end of `radioMacEvent`.
  start : Mac P → Mac P
  start m = elim m.state [
    | rx ↦ record (command srx m) { dma_armed = true }
    | tx ↦ record (command stx m) { dma_armed = true }
    | _ ↦ m
  ]

module _ {S P : Type 0} (handler : Event → S → Mac P → S × Mac P) where
  -- `radioMacEvent`
  unfoldable pub radio_mac_event : Event → ℕ → S → Mac P → S × Mac P
  unfolding quiet start
  radio_mac_event event marcstate s m =
      let (s', m') = handler event s (quiet marcstate m) in
      (s', record (start (record m' { irq_done = false; irq_timeout = false })) { strobe = false })

  -- IRQ_DONE
  done_part : Readings → S → Mac P → S × Mac P
  done_part r s m = elim m.state [
    | tx ↦ radio_mac_event on_tx r.done_marcstate s m
    | rx ↦ radio_mac_event on_rx r.done_marcstate s m
    | _ ↦ (s, m)
  ]

  -- IRQ_TIMEOUT
  timeout_part : Readings → S → Mac P → S × Mac P
  timeout_part r s m =
      if m.irq_timeout then radio_mac_event on_rx_timeout r.timeout_marcstate s m else (s, m)

  -- The early returns under `if (strobe)`: a packet is on its way out or in, or the listening period
  -- is about to end.
  busy : Readings → Mac P → Bool
  busy r m = elim m.state [
    | tx ↦ true
    | rx ↦
        r.listening_marcstate == 0x0D
        && (truth (bit_and r.pktstatus 8)
            || not (bit_and m.mcsm2 7 == 7) && ltb r.worevt1_now max_latency_of_strobe)
    | _ ↦ false
  ]

  -- TX underflow and RX overflow are reported and their flags cleared.
  report_errors : Mac P → Mac P
  report_errors m = record m {
    tx_underflow_occurred = m.irq_txunf || m.tx_underflow_occurred;
    irq_txunf = false;
    rx_overflow_occurred = m.irq_rxovf || m.rx_overflow_occurred;
    irq_rxovf = false;
  }

  strobe_part : Readings → S → Mac P → S × Mac P
  strobe_part r s m =
      let m' = if not (r.idle_marcstate == 0x0D) then command sidle m else m in
      radio_mac_event on_strobe r.strobe_marcstate s m'

  -- The part of the routine after the events: a strobe, unless it must wait, and the error flags.
  finish_part : Readings → S → Mac P → S × Mac P
  unfolding report_errors strobe_part busy
  finish_part r s m =
      if m.strobe
      then (if busy r m
          then (s, m)
          else (let (s', m') = strobe_part r s m in (s', report_errors m')))
      else (s, report_errors m)

  -- The interrupt routine `ISR(RF, 0)`.
  unfoldable pub rf_isr : Readings → S → Mac P → S × Mac P
  unfolding done_part timeout_part finish_part
  rf_isr r s m =
      let m0 = record m { s1con = 0 } in
      let (s1, m1) = if m0.irq_done then done_part r s m0 else (s, m0) in
      let (s2, m2) = timeout_part r s1 m1 in finish_part r s2 m2
