-- ===== src/RadioLink/Stations.antt =====
-- Two stations that run radio_link.c over a medium that loses and garbles packets: every step of theirs
-- is a step of the protocol, so packets arrive once and in order. A message is what the radio's buffer
-- holds when the interrupt handler leaves the radio sending.
pub mod Simulation
pub mod Ordered
use wixel_sdk.Base.{
  ℕ, ◌+◌, ◌<◌, ◌≡◌, ◌≢◌, refl, sym, ap, ap₂, subst, ◌∙◌, Bool, true, false, not, List, [], ◌∷◌,
  ◌++◌, map, Option, none, some, arith, length, get_or, set, byte_of, All, length-set,
  get_or-set_self, get_or-set_ne, if◌then◌else◌, ◌==◌, ℕ_discrete,
}
use wixel_sdk.Base.Ring.{ring, ring-set_end}
use wixel_sdk.RadioMac.{Event, on_tx, on_rx, on_rx_timeout, on_strobe}
use wixel_sdk.RadioLink.Defs.{
  Link, Node, rx_packet_count, max_packet_size, tx_send_packet, tx_available, rx_done_with_packet,
}
use wixel_sdk.RadioLink.Handler.{Inputs, event_handler}
use wixel_sdk.RadioLink.Bounds.{Sized, IsValid, event_handler-IsValid, main_loop-IsValid}
use wixel_sdk.RadioLink.Peer.{
  Payload, Message, Peer, peer, on_air, message, rx_payload, rx_contents, initiative, answer,
}
use wixel_sdk.RadioLink.Refine.{Loaded}
use wixel_sdk.RadioLink.Sends.{Shows}
use wixel_sdk.RadioLink.Takes.{rx_slot}
use wixel_sdk.RadioLink.Receives.{event_handler_refines}
use wixel_sdk.RadioLink.Outbox.{
  written, main_slot, tx_contents-tx_send_packet, tx_send_packet-Loaded,
  rx_contents-rx_done_with_packet, write_main, write_main-IsValid, tx_contents-write_main,
  write_main-Loaded,
}
use wixel_sdk.RadioLink.World.{
  Side, Step, Reach, puts, takes, wakes, falls_silent, is_heard, other, here, next, answers,
}
use wixel_sdk.RadioLink.Delivery.{got}
use wixel_sdk.RadioLink.Delivery.Reliable.{IsConnected, IsPrefix, delivers_in_order}

-- A node, the message it is sending, what its main loop has sent, and what it has taken out.
pub record Station : Type 0 where
  pub node : Node
  pub air : Option Message
  pub sent : List Payload
  pub taken : List Payload

abbrev pub side : Station → Side
side s = record { peer = peer s.node.link; air = s.air; sent = s.sent; taken = s.taken }

-- The radio's DMA has put a packet, with its length and status bytes, into the receive buffer.
abbrev pub receive : List ℕ → Node → Node
receive bytes n = record n {
  link = record (n.link) { rx_packet = set n.link.rx_packet n.link.rx_int bytes };
}

-- After an event the radio sends what the handler left it sending.
abbrev pub handles : Inputs → Event → Station → Station
handles i e s = let n = event_handler i e s.node in record s { node = n; air = on_air n }

abbrev pub hears : Inputs → List ℕ → Station → Station
hears i bytes s = handles i on_rx (record s { node = receive bytes s.node })

abbrev pub fills : ℕ → ℕ → Station → Station
fills i x s = record s {
  node = record (s.node) {
    link = record (s.node.link) {
      tx_packet = set s.node.link.tx_packet s.node.link.tx_main (set (main_slot s.node.link) i x);
    };
  };
}

abbrev pub sends_packet : ℕ → Station → Station
sends_packet kind s = record s {
  node = tx_send_packet kind s.node;
  sent = s.sent ++ written kind (main_slot s.node.link) ∷ [];
}

abbrev pub takes_packet : Station → Station
takes_packet s = record s {
  node = record (s.node) { link = rx_done_with_packet s.node.link };
  taken = s.taken ++ rx_payload (get_or s.node.link.rx_packet s.node.link.rx_main []) ∷ [];
}

-- One station acts: its main loop writes to the packet it is filling, sends it or takes a packet out;
-- its radio strobes, times out or has sent its packet; it hears a packet with a wrong CRC; or what it
-- is sending reaches the other station. `other_way` is the same for the other station.
pub data StationStep : Station × Station → Station × Station → Type 0 where
  filling : (a b : Station) (i x : ℕ) → StationStep (a, b) (fills i x a, b)
  sending :
      (a b : Station) (kind : ℕ)
      → kind < 16
      → 0 < byte_of a.node.link.tx_packet a.node.link.tx_main 1
      → byte_of a.node.link.tx_packet a.node.link.tx_main 1 < 255
      → tx_available a.node.link ≢ 0
      → StationStep (a, b) (sends_packet kind a, b)
  taking :
      (a b : Station)
      → a.node.link.rx_main ≢ a.node.link.rx_int
      → StationStep (a, b) (takes_packet a, b)
  waking : (a b : Station) (i : Inputs) → StationStep (a, b) (handles i on_strobe a, b)
  timing_out : (a b : Station) (i : Inputs) → StationStep (a, b) (handles i on_rx_timeout a, b)
  ending : (a b : Station) (i : Inputs) → StationStep (a, b) (handles i on_tx a, b)
  hearing_noise :
      (a b : Station) (i : Inputs) (bytes : List ℕ)
      → length bytes ≡ 22
      → get_or bytes 0 0 < 256
      → i.crc_passed ≡ false
      → StationStep (a, b) (hears i bytes a, b)
  reaching :
      (a b : Station) (i : Inputs) (bytes : List ℕ)
      → length bytes ≡ 22
      → get_or bytes 0 0 < 256
      → i.crc_passed ≡ true
      → a.air ≡ some (message bytes)
      → StationStep (a, b) (record a { air = none }, hears i bytes b)
  other_way : {a b a' b' : Station} → StationStep (a, b) (a', b') → StationStep (b, a) (b', a')

pub data Runs (w : Station × Station) : Station × Station → Type 0 where
  start : Runs w w
  onward : {v u : Station × Station} → Runs w v → StationStep v u → Runs w u
