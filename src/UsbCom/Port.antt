-- ===== src/UsbCom/Port.antt =====
-- libraries/src/usb_cdc_acm/usb_cdc_acm.c: bytes to and from the host. The endpoint's FIFOs are lists: the
-- bytes loaded for the next packet, the packets handed over, how many of them the host has still to
-- collect, and the packets of the host, the one that is being read first.
use wixel_sdk.Base.{
  ℕ, zero, suc, ◌+◌, ◌-◌, ◌*◌, ◌^◌, Bool, true, not, ◌&&◌, ◌||◌, List, [], ◌∷◌, ◌++◌, if◌then◌else◌,
  ◌==◌, ltb, u8, truth, length, take, drop, bit_and, bit_or, get_or,
}
use wixel_sdk.Usb.Defs.{Usb, configured, read_fifo}
use wixel_sdk.Usb.Poll.{Registers, poll}
use wixel_sdk.UsbCom.Callbacks.{Layout, store, app}

pub record Com : Type 0 where
  pub usb : Usb
  pub serial_state : ℕ
  pub send_empty_soon : Bool
  pub loaded : ℕ
  pub in_fifo : List ℕ
  pub in_packets : List (List ℕ)
  pub in_flight : ℕ
  pub out_packets : List (List ℕ)
  pub notifications : List (List ℕ)
  pub in_bootloader : Bool

abbrev pub in_packet_size : ℕ
in_packet_size = 64

abbrev pub irregular_mask : ℕ
irregular_mask = 0x7C

abbrev pub is_configured : Com → Bool
is_configured c = c.usb.device_state == configured

abbrev pub select : ℕ → Com → Com
select endpoint c = record c { usb = record (c.usb) { usbindex = endpoint } }

abbrev pub note_activity : Com → Com
note_activity c = record c { usb = record (c.usb) { activity = true } }

-- USBCNTL, and USBCSOL with OUTPKT_RDY, of the packet that is being read
abbrev pub out_count : List (List ℕ) → ℕ
out_count [] = 0
out_count (p ∷ ps) = length p

-- `usbComRxAvailable`
unfoldable pub rx_available : Com → ℕ × Com
rx_available c = if is_configured c then (u8 (out_count c.out_packets), select 4 c) else (0, c)

-- A byte is taken out of the FIFO, and the packet is given up when it was the last.
abbrev pub take_byte : List (List ℕ) → ℕ × List (List ℕ)
take_byte [] = (0, [])
take_byte ([] ∷ ps) = (0, ps)
take_byte ((b ∷ []) ∷ ps) = (b, ps)
take_byte ((b ∷ c ∷ bs) ∷ ps) = (b, (c ∷ bs) ∷ ps)

-- `usbComRxReceiveByte`
unfoldable pub rx_receive_byte : Com → ℕ × Com
rx_receive_byte c =
    let (byte, rest) = take_byte c.out_packets in
    (byte, note_activity (select 4 (record c { out_packets = rest })))

abbrev pub drop_bytes : ℕ → List (List ℕ) → List (List ℕ)
drop_bytes n [] = []
drop_bytes n (p ∷ ps) = if length (drop n p) == 0 then ps else drop n p ∷ ps

abbrev pub first_packet : List (List ℕ) → List ℕ
first_packet [] = []
first_packet (p ∷ ps) = p

-- `usbComRxReceive`
unfoldable pub rx_receive : ℕ → ℕ → Com → Com
unfolding read_fifo
rx_receive buffer size c = record c {
  usb = read_fifo size buffer (first_packet c.out_packets) c.usb;
  out_packets = drop_bytes size c.out_packets;
}

-- `sendPacketNow`
unfoldable pub send_packet_now : Com → Com
send_packet_now c = note_activity (
    select 4 (record c {
      in_fifo = [];
      in_packets = c.in_packets ++ c.in_fifo ∷ [];
      in_flight = c.in_flight + 1;
      send_empty_soon = c.loaded == in_packet_size;
      loaded = 0;
    }))

-- `usbComTxAvailable`: PKT_PRESENT and INPKT_RDY of the data endpoint show whether one and whether two
-- packets are in the FIFO.
unfoldable pub tx_available : Com → ℕ × Com
tx_available c =
    if is_configured c
    then (
      if ltb 0 c.in_flight
          then (if ltb 1 c.in_flight then 0 else in_packet_size - c.loaded)
          else 2 * in_packet_size - c.loaded,
      select 4 c,
    )
    else (0, c)

-- Bytes are put into the FIFO.
abbrev pub load : List ℕ → Com → Com
load bytes c = record c { in_fifo = c.in_fifo ++ bytes; loaded = u8 (c.loaded + length bytes) }

-- The packet is sent when it is full.
abbrev pub send_if_full : Com → Com
send_if_full c = if c.loaded == in_packet_size then send_packet_now c else c

-- `usbComTxSendByte`
unfoldable pub tx_send_byte : ℕ → Com → Com
unfolding send_packet_now
tx_send_byte byte c = send_if_full (load (byte ∷ []) c)

-- The loop of `usbComTxSend` on the bytes of `buffer`, with `rounds` rounds at most
unfoldable pub tx_send_rounds : ℕ → List ℕ → Com → Com
unfolding send_packet_now
tx_send_rounds zero bytes c = c
tx_send_rounds (suc rounds) [] c = c
tx_send_rounds (suc rounds) (b ∷ bs) c =
    let n = in_packet_size - c.loaded in
    let size = if ltb (length (b ∷ bs)) n then length (b ∷ bs) else n in
    tx_send_rounds rounds (drop size (b ∷ bs)) (send_if_full (load (take size (b ∷ bs)) c))

-- `usbComTxSend`: each round takes a byte at least.
unfoldable pub tx_send : List ℕ → Com → Com
unfolding tx_send_rounds
tx_send bytes c = tx_send_rounds (length bytes) bytes c

-- The data packet of `usbComService`
unfoldable pub service_data : Com → Com
unfolding send_packet_now
service_data c0 =
    let c = select 4 c0 in
    if truth c.loaded || c.send_empty_soon && not (ltb 0 c.in_flight) then send_packet_now c else c

-- The packet that tells the host the serial state; the irregular signals are cleared.
unfoldable pub report : Layout → Com → Com
report l c =
    let regular = bit_and c.serial_state (255 - irregular_mask) in
    note_activity (record c {
      notifications =
          c.notifications
          ++ (0b10100001 ∷ 0x20 ∷ 0 ∷ 0 ∷ 0 ∷ 0 ∷ 2 ∷ 0 ∷ c.serial_state ∷ 0 ∷ []) ∷ [];
      serial_state = regular;
      usb = store l.last_reported regular c.usb;
    })

-- The notification of `usbComService`; `busy` is INPKT_RDY of its endpoint.
unfoldable pub service_notification : Layout → Bool → Com → Com
unfolding report
service_notification l busy c0 =
    let c = select 1 c0 in
    if not (c.serial_state == get_or c.usb.xdata l.last_reported 0) && not busy
    then report l c
    else c

-- `(uint8)(getMs() - startBootloaderRequestTime)`
abbrev pub elapsed : Layout → ℕ → Com → ℕ
elapsed l now c = u8 (now + 2 ^ 32 - get_or c.usb.xdata l.request_time 0)

-- `usbComService`, where `poll_now` and `now` are what getMs returns in usbPoll and in the test
unfoldable pub service : ℕ → Layout → (Usb → Usb) → ℕ → Registers → Bool → ℕ → Com → Com
unfolding service_data service_notification poll app
service response l changed poll_now r busy now c0 =
    let c = record c0 { usb = poll response (app l changed poll_now) r c0.usb } in
    if truth (get_or c.usb.xdata l.bootloader_soon 0) && ltb 70 (elapsed l now c)
    then record c { in_bootloader = true }
    else if is_configured c
    then service_notification l busy (service_data c)
    else c

-- `usbComRxControlSignals`, `usbComTxControlSignals` and `usbComTxControlSignalEvents`
unfoldable pub rx_control_signals : Layout → Com → ℕ
rx_control_signals l c = get_or c.usb.xdata l.control_line_state 0

unfoldable pub tx_control_signals : ℕ → Com → Com
tx_control_signals signals c = record c {
  serial_state = bit_or (bit_and c.serial_state irregular_mask) signals;
}

unfoldable pub tx_control_signal_events : ℕ → Com → Com
tx_control_signal_events events c = record c { serial_state = bit_or c.serial_state events }
