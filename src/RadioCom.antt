-- ===== src/RadioCom.antt =====
-- libraries/src/radio_com/radio_com.c: a stream of bytes and a byte of control signals over the
-- packets of radio_link.c.
pub mod Signals
pub mod Stream
use wixel_sdk.Base.{
  ℕ, zero, suc, ◌+◌, ◌*◌, ◌-◌, ◌^◌, Bool, true, false, not, ◌&&◌, Option, none, some, if◌then◌else◌,
  ◌==◌, leb, u8, truth, byte_of, write_byte,
}
use wixel_sdk.RadioLink.Defs.{
  Link, Node, header_length, payload_size, rx_packet_count, rx_current_packet,
  rx_current_payload_type, rx_done_with_packet, tx_available, tx_queued, tx_current_packet,
  tx_send_packet,
}
use wixel_sdk.RadioLink.Defs

abbrev pub payload_type_data : ℕ
payload_type_data = 0

abbrev pub payload_type_control_signals : ℕ
payload_type_control_signals = 1

abbrev pub tx_queue_threshold : ℕ
tx_queue_threshold = 1

-- A pointer into one of the link's buffers: the buffer's index, and the byte within it.
pub record Place : Type 0 where
  pub buffer : ℕ
  pub offset : ℕ

-- The variables of radio_com.c, and the link below. A null pointer is `none`.
pub record RadioCom : Type 0 where
  pub rx_enforce_ordering : Bool
  pub tx_bytes_loaded : ℕ
  pub rx_bytes_left : ℕ
  pub rx_pointer : Option Place
  pub tx_pointer : Option Place
  pub packet_pointer : Option Place
  pub rx_signals : ℕ
  pub tx_signals : ℕ
  pub last_rx_signals : ℕ
  pub send_signals_soon : Bool
  pub node : Node

-- `radioComInit`
unfoldable pub init : ℕ → RadioCom → RadioCom
init channel c = record c { node = Defs.init channel c.node }

-- `WAITING_TO_REPORT_RX_SIGNALS`
abbrev pub waiting_to_report : RadioCom → Bool
waiting_to_report c = c.rx_enforce_ordering && not (c.rx_signals == c.last_rx_signals)

-- `packet[i]` of the packet at the front of the receive buffers.
abbrev pub packet_byte : RadioCom → ℕ → ℕ
packet_byte c i = byte_of c.node.link.rx_packet c.node.link.rx_main (header_length + i)

-- The two cases of the switch.
abbrev pub take_data : RadioCom → RadioCom
take_data c = record c {
  rx_bytes_left = packet_byte c 0;
  rx_pointer = some (record { buffer = c.node.link.rx_main; offset = header_length + 1 });
}

abbrev pub done_with_packet : RadioCom → RadioCom
done_with_packet c = record c { node = record (c.node) { link = rx_done_with_packet c.node.link } }

abbrev pub take_signals : RadioCom → RadioCom
take_signals c = done_with_packet (record c { rx_signals = packet_byte c 1 })

abbrev pub is_signals : RadioCom → Bool
is_signals c = rx_current_payload_type c.node.link == payload_type_control_signals

-- The loop of `receiveMorePackets`, with at most `k` rounds; `none` if they do not suffice. A packet
-- of another type is left where it is, and the loop goes round again.
unfoldable pub receive_loop : ℕ → RadioCom → Option RadioCom
receive_loop zero c = none
receive_loop (suc k) c =
    let c' = if is_signals c then take_signals c else c in
    let rest = receive_loop k c' in
    elim (rx_current_packet c.node.link) [
      | none ↦ some c
      | some _ ↦
          if rx_current_payload_type c.node.link == payload_type_data
          then some (take_data c)
          else (if is_signals c && waiting_to_report c' then some c' else rest)
    ]

-- `receiveMorePackets`; there are `rx_packet_count` receive buffers.
unfoldable pub receive_more_packets : RadioCom → Option RadioCom
unfolding receive_loop
receive_more_packets c =
    if not (c.rx_bytes_left == 0)
    then some c
    else (if waiting_to_report c then some c else receive_loop rx_packet_count c)

abbrev pub rx_available_of : Option RadioCom → Option (ℕ × RadioCom)
rx_available_of none = none
rx_available_of (some c) = some (c.rx_bytes_left, c)

-- `radioComRxAvailable`
unfoldable pub rx_available : RadioCom → Option (ℕ × RadioCom)
unfolding receive_more_packets
rx_available c = rx_available_of (receive_more_packets c)

abbrev pub load : RadioCom → Option Place → ℕ
load c none = 0
load c (some p) = byte_of c.node.link.rx_packet p.buffer p.offset

abbrev pub next_place : Option Place → Option Place
next_place none = none
next_place (some p) = some (record p { offset = p.offset + 1 })

-- `radioComRxReceiveByte`
unfoldable pub rx_receive_byte : RadioCom → ℕ × RadioCom
rx_receive_byte c =
    let c' = record c {
      rx_pointer = next_place c.rx_pointer;
      rx_bytes_left = u8 (c.rx_bytes_left + 2 ^ 8 - 1);
    } in
    (load c c.rx_pointer, if c'.rx_bytes_left == 0 then done_with_packet c' else c')

abbrev pub rx_control_signals_of : Option RadioCom → Option (ℕ × RadioCom)
rx_control_signals_of none = none
rx_control_signals_of (some c) = some (c.rx_signals, record c { last_rx_signals = c.rx_signals })

-- `radioComRxControlSignals`
unfoldable pub rx_control_signals : RadioCom → Option (ℕ × RadioCom)
unfolding receive_more_packets
rx_control_signals c = rx_control_signals_of (receive_more_packets c)

-- `*p = x` for a pointer into the transmit buffers.
abbrev pub store : Option Place → ℕ → Link → Link
store none x l = l
store (some p) x l = record l { tx_packet = write_byte l.tx_packet p.buffer p.offset x }

abbrev pub on_link : (Link → Link) → Node → Node
on_link f n = record n { link = f n.link }

-- `radioComSendDataNow`
unfoldable pub send_data_now : RadioCom → RadioCom
send_data_now c = record c {
  node =
      tx_send_packet payload_type_data (on_link (store c.packet_pointer c.tx_bytes_loaded) c.node);
  tx_bytes_loaded = 0;
}

abbrev pub place_of : Option ℕ → Option Place
place_of none = none
place_of (some b) = some (record { buffer = b; offset = header_length })

-- `radioComSendControlSignalsNow`
unfoldable pub send_control_signals_now : RadioCom → RadioCom
send_control_signals_now c =
    let packet = place_of (tx_current_packet c.node.link) in
    record c {
      node =
          tx_send_packet payload_type_control_signals
            (on_link (λ l. store (next_place packet) c.tx_signals (store packet 1 l)) c.node);
      send_signals_soon = false;
    }

abbrev pub note_reset : RadioCom → RadioCom
note_reset c =
    if c.node.link.reset_received
    then record c {
      node = on_link (λ l. record l { reset_received = false }) c.node;
      send_signals_soon = true;
    }
    else c

abbrev pub flush : RadioCom → RadioCom
flush c = if not (c.tx_bytes_loaded == 0) then send_data_now c else c

abbrev pub signal_if_room : RadioCom → RadioCom
signal_if_room c = if truth (tx_available c.node.link) then send_control_signals_now c else c

abbrev pub service : RadioCom → RadioCom
service c =
    if c.send_signals_soon
    then signal_if_room (flush c)
    else (if not (c.tx_bytes_loaded == 0) && leb (tx_queued c.node.link) tx_queue_threshold
        then send_data_now c
        else c)

-- `radioComTxService`
unfoldable pub tx_service : RadioCom → RadioCom
unfolding send_data_now send_control_signals_now
tx_service c = service (note_reset c)

-- `radioComTxAvailable`: a `uint8`, computed in 16 bits.
unfoldable pub com_tx_available : RadioCom → ℕ
com_tx_available c =
    if c.send_signals_soon
    then 0
    else u8 (tx_available c.node.link * payload_size + 2 ^ 16 - c.tx_bytes_loaded)

abbrev pub start_packet : RadioCom → RadioCom
start_packet c =
    let p = place_of (tx_current_packet c.node.link) in
    if c.tx_bytes_loaded == 0 then record c { tx_pointer = p; packet_pointer = p } else c

abbrev pub put_byte : ℕ → RadioCom → RadioCom
put_byte byte c = record c {
  tx_pointer = next_place c.tx_pointer;
  node = on_link (store (next_place c.tx_pointer) byte) c.node;
  tx_bytes_loaded = u8 (c.tx_bytes_loaded + 1);
}

-- `radioComTxSendByte`
unfoldable pub tx_send_byte : ℕ → RadioCom → RadioCom
unfolding send_data_now
tx_send_byte byte c =
    let c' = put_byte byte (start_packet c) in
    if c'.tx_bytes_loaded == payload_size then send_data_now c' else c'

-- `radioComTxControlSignals`
unfoldable pub tx_control_signals : ℕ → RadioCom → RadioCom
unfolding tx_service
tx_control_signals signals c =
    if not (signals == c.tx_signals)
    then tx_service (record c { tx_signals = signals; send_signals_soon = true })
    else c
