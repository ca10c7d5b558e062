-- ===== src/RadioLink/Peer.antt =====
-- The abstract view of radio_link.c: a queue of payloads to send, an inbox of payloads received, two
-- sequence bits and two flags; and the protocol on that view. The bytes of a buffer are read as a
-- payload or as a message on the air.
use wixel_sdk.Base.{
  ℕ, ◌-◌, ◌/◌, Bool, false, not, ◌||◌, List, [], ◌∷◌, ◌++◌, Option, none, some, if◌then◌else◌, ◌==◌,
  ltb, bit_and, bit_xor, get_or, take, drop, length, map,
}
use wixel_sdk.Base.Ring.{ring}
use wixel_sdk.RadioMac.{MacState, tx, Address, packet, rfd}
use wixel_sdk.RadioLink.Defs.{
  Link, Node, Buffer, tx_buffer, rx_buffer, short_buffer, tx_packet_count, rx_packet_count,
  type_ping, type_nak, type_ack, type_reset,
}

pub record Payload : Type 0 where
  pub kind : ℕ
  pub bytes : List ℕ

-- A buffer to be sent: the length with the header, the header, the payload's bytes.
abbrev pub tx_payload : List ℕ → Payload
tx_payload buf = record {
  kind = bit_and (get_or buf 1 0) 0b00011110 / 2;
  bytes = take (get_or buf 0 0 - 1) (drop 2 buf);
}

-- A buffer given to the main loop: the payload type, the payload's length, its bytes.
abbrev pub rx_payload : List ℕ → Payload
rx_payload buf = record { kind = get_or buf 0 0; bytes = take (get_or buf 1 0) (drop 2 buf) }

pub record Message : Type 0 where
  pub kind : ℕ
  pub seq : ℕ
  pub load : Option Payload

abbrev pub message : List ℕ → Message
message buf = record {
  kind = bit_and (get_or buf 1 0) 192;
  seq = bit_and (get_or buf 1 0) 1;
  load = if ltb 1 (get_or buf 0 0) then some (tx_payload buf) else none;
}

abbrev pub buffer_of : Link → Buffer → List ℕ
buffer_of l (tx_buffer i) = get_or l.tx_packet i []
buffer_of l (rx_buffer i) = get_or l.rx_packet i []
buffer_of l short_buffer = l.short_packet

abbrev source_of : Link → Address Buffer → List ℕ
source_of l rfd = []
source_of l (packet b) = buffer_of l b

abbrev sending_of : Link → Address Buffer → MacState → Option Message
sending_of l a tx = some (message (source_of l a))
sending_of l a _ = none

-- What a node is sending: the message in the buffer that the radio's DMA reads.
abbrev pub on_air : Node → Option Message
on_air n = sending_of n.link n.mac.dma.src n.mac.state

pub record Peer : Type 0 where
  pub queue : List Payload
  pub inbox : List Payload
  pub tx_seq : ℕ
  pub rx_seq : ℕ
  pub any : Bool
  pub resetting : Bool

abbrev pub tx_contents : Link → List Payload
tx_contents l = map tx_payload (ring [] tx_packet_count l.tx_packet l.tx_int l.tx_main)

abbrev pub rx_contents : Link → List Payload
rx_contents l = map rx_payload (ring [] rx_packet_count l.rx_packet l.rx_main l.rx_int)

abbrev pub peer : Link → Peer
peer l = record {
  queue = tx_contents l;
  inbox = rx_contents l;
  tx_seq = l.tx_seq;
  rx_seq = l.rx_seq;
  any = l.accept_any;
  resetting = l.sending_reset;
}

-- A message with no payload carries no sequence bit.
abbrev pub bare : ℕ → Message
bare kind = record { kind = kind; seq = 0; load = none }

-- A message of a kind, with the payload at the head of the queue if there is one.
abbrev pub carry : ℕ → ℕ → List Payload → Message
carry kind seq [] = bare kind
carry kind seq (x ∷ q) = record { kind = kind; seq = seq; load = some x }

abbrev pub send : ℕ → Peer → Message
send kind p = carry kind p.tx_seq p.queue

abbrev pub ping_of : ℕ → List Payload → Option Message
ping_of seq [] = none
ping_of seq (x ∷ q) = some (carry type_ping seq (x ∷ q))

-- What a peer starts to send when it takes the initiative; `none` is to listen.
unfoldable pub initiative : Peer → Option Message
initiative p = if p.resetting then some (bare type_reset) else ping_of p.tx_seq p.queue

unfoldable pub advance : List Payload → Peer → Peer
advance [] p = p
advance (x ∷ q) p = record p { queue = q; tx_seq = bit_xor p.tx_seq 1 }

unfoldable pub acknowledge : Peer → Peer
unfolding advance
acknowledge p =
    if p.resetting then record p { resetting = false; tx_seq = 0 } else advance p.queue p

-- A payload with its sequence bit: the kind of the answer, and the peer after it. An inbox holds at
-- most two payloads.
unfoldable pub take_in : ℕ → Payload → Peer → ℕ × Peer
take_in seq x p =
    if p.any || not (p.rx_seq == seq)
    then (if ltb (length p.inbox) 2
        then (type_ack, record p { rx_seq = seq; any = false; inbox = p.inbox ++ x ∷ [] })
        else (type_nak, p))
    else (type_ack, p)

unfoldable pub answer_load : Message → Option Payload → Peer → Option Message × Peer
answer_load m none p = (initiative p, p)
answer_load m (some x) p = let (kind, p') = take_in m.seq x p in (some (send kind p'), p')

-- What a peer sends in answer to a message, and the peer after it.
unfoldable pub answer : Message → Peer → Option Message × Peer
unfolding answer_load
answer m p =
    if m.kind == type_reset
    then (some (bare type_ack), record p { rx_seq = 1 })
    else answer_load m m.load (if m.kind == type_ack then acknowledge p else p)
