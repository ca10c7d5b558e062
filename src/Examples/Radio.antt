-- ===== src/Examples/Radio.antt =====
-- The radio layers at concrete inputs.
use wixel_sdk.Base.{
  ℕ, zero, suc, ◌<◌, ◌≡◌, ◌≢◌, ◌⊎◌, refl, ap, Bool, true, false, ◌&&◌, not, ◌||◌, if◌then◌else◌,
  ◌==◌, List, [], ◌∷◌, ◌++◌, none, some, arith, length, get_or, set, replicate,
}
use wixel_sdk.RadioMac.{
  Mac, Readings, rx, tx, on_tx, on_rx, Address, rfd, radio_mac_event, rf_isr, quiet,
}
use wixel_sdk.RadioMac.Laws.{IsRunning, radio_mac_event_restarts, rf_isr_waits}
use wixel_sdk.RadioLink.Defs.{
  Link, Node, Buffer, rx_buffer, tx_available, tx_send_packet, rx_current_payload_type,
}
use wixel_sdk.RadioLink.Handler.{Inputs, event_handler}
use wixel_sdk.RadioLink.Bounds.{IsValid, event_handler-IsValid}
use wixel_sdk.RadioLink.Peer.{peer, message, tx_contents}
use wixel_sdk.RadioLink.Refine.{Loaded}
use wixel_sdk.RadioLink.Sends.{Shows}
use wixel_sdk.RadioLink.Takes.{rx_slot}
use wixel_sdk.RadioLink.Receives.{handled, event_handler_refines}
use wixel_sdk.RadioLink.Outbox.{written, main_slot, tx_contents-tx_send_packet}
use wixel_sdk.RadioLink.Client.{link_handler, link_handler-Decides, radio_mac_event-link_handler}
use wixel_sdk.RadioCom.{
  RadioCom, receive_more_packets, receive_loop, waiting_to_report, tx_send_byte,
}
use wixel_sdk.RadioCom.Signals.{
  seen, seen_of, scan, inbox, receive_more_packets_scans, receive_loop_stuck,
}
use wixel_sdk.RadioCom.Stream.{IsFilling, stream, append_byte, stream-tx_send_byte}
use wixel_sdk.RadioQueue.{RadioQueue}
use wixel_sdk.RadioQueue
use wixel_sdk.RadioQueue.Laws as RadioQueueLaws
use wixel_sdk.RadioQueue.Laws.{
  tx_counts, outcome_of, on_event, event_handler_outcome, calls-IsValid,
}

-- Every buffer has a length, tested and as `Sized` wants it.
all_sized : ℕ → List (List ℕ) → Bool
all_sized size [] = true
all_sized size (b ∷ bs) = (length b == size) && all_sized size bs

all_sized_sound :
    (size : ℕ) (bs : List (List ℕ)) (i : ℕ)
    → all_sized size bs ≡ true
    → i < length bs
    → length (get_or bs i []) ≡ size
unfolding all_sized
all_sized_sound size [] i t h = absurd (omega arith)
all_sized_sound size (b ∷ bs) zero t h = ground arith
all_sized_sound size (b ∷ bs) (suc i) t h =
    let rest : all_sized size bs ≡ true = ground arith in
    all_sized_sound size bs i rest (omega arith)

abbrev pub receiving : Mac Buffer
receiving = record {
  strobe = false;
  rx_overflow_occurred = false;
  tx_underflow_occurred = false;
  state = rx;
  commands = [];
  irq_done = true;
  irq_timeout = false;
  irq_rxovf = false;
  irq_txunf = false;
  s1con = 3;
  mcsm0 = 0x14;
  mcsm1 = 0x05;
  mcsm2 = 0x07;
  worctrl = 0;
  worevt1 = 0;
  worevt0 = 0;
  ien2 = 1;
  rfim = 0xF0;
  ea = true;
  pktlen = 19;
  channr = 128;
  dma_armed = true;
  dma_pending = false;
  dma = record {
    src = rfd;
    dest = Address.packet (rx_buffer 0);
    vlen_lenh = 0b10000000;
    lenl = 22;
    dc6 = 19;
    dc7 = 0x10;
  };
}

abbrev pub buffer_of : ℕ → List ℕ → List ℕ
buffer_of n bytes = bytes ++ replicate n 0

-- One packet of three bytes to send; one packet handed to the main loop; and, in the buffer that the
-- radio receives into, an acknowledgement with two bytes of data.
abbrev pub link_state : Link
link_state = record {
  rx_packet =
      buffer_of 19 (0 ∷ 2 ∷ 65 ∷ []) ∷ buffer_of 18 (3 ∷ 128 ∷ 7 ∷ 8 ∷ []) ∷ replicate 22 0 ∷ [];
  rx_main = 0;
  rx_int = 1;
  tx_packet =
      buffer_of 15 (4 ∷ 0 ∷ 1 ∷ 2 ∷ 3 ∷ [])
      ∷ buffer_of 16 (0 ∷ 2 ∷ 5 ∷ 6 ∷ [])
      ∷ replicate 14 (replicate 20 0);
  tx_main = 1;
  tx_int = 0;
  short_packet = 0 ∷ 0 ∷ [];
  tries = 1;
  sending_reset = false;
  accept_any = false;
  reset_received = false;
  rx_seq = 1;
  tx_seq = 0;
  activity = false;
}

pub link_state-IsValid : IsValid link_state
unfolding all_sized
link_state-IsValid = record {
  rx_sized = record {
    count_all = refl;
    size_each = λ i h. all_sized_sound 22 link_state.rx_packet i refl h;
  };
  tx_sized = record {
    count_all = refl;
    size_each = λ i h. all_sized_sound 20 link_state.tx_packet i refl h;
  };
  short_size = refl;
  rx_main_in = omega arith;
  rx_int_in = omega arith;
  tx_main_in = omega arith;
  tx_int_in = omega arith;
  rx_seq_bit = omega arith;
  tx_seq_bit = omega arith;
  tries_byte = omega arith;
}

pub link_state-Loaded : Loaded link_state
link_state-Loaded = (omega arith, tt)

abbrev node_state : Node
node_state = record { link = link_state; mac = receiving }

abbrev inputs : Inputs
inputs = record { random = 6; crc_passed = true }

event_handler_refines_example :
    Shows
      (event_handler inputs on_rx node_state)
      (handled inputs on_rx (message (rx_slot link_state)) (peer link_state)).0
      (handled inputs on_rx (message (rx_slot link_state)) (peer link_state)).1
event_handler_refines_example =
    event_handler_refines inputs on_rx node_state link_state-IsValid link_state-Loaded (omega arith)

event_handler-IsValid_example : IsValid (event_handler inputs on_rx node_state).link
event_handler-IsValid_example = event_handler-IsValid inputs on_rx node_state link_state-IsValid

has_room : tx_available link_state ≢ 0
unfolding tx_available
has_room e = omega arith

tx_contents-tx_send_packet_example :
    tx_contents (tx_send_packet 3 node_state).link
    ≡ tx_contents link_state ++ written 3 (main_slot link_state) ∷ []
tx_contents-tx_send_packet_example =
    tx_contents-tx_send_packet 3 node_state link_state-IsValid (omega arith) (omega arith) has_room

-- Two bytes of the next packet are loaded.
abbrev com_state : RadioCom
com_state = record {
  rx_enforce_ordering = true;
  tx_bytes_loaded = 2;
  rx_bytes_left = 0;
  rx_pointer = none;
  tx_pointer = some (record { buffer = 1; offset = 3 });
  packet_pointer = some (record { buffer = 1; offset = 1 });
  rx_signals = 0;
  tx_signals = 0;
  last_rx_signals = 0;
  send_signals_soon = false;
  node = node_state;
}

com_state-IsFilling : IsFilling com_state
com_state-IsFilling = record {
  valid = link_state-IsValid;
  short = omega arith;
  packet_at = λ ne. refl;
  next_at = λ ne. refl;
  has_room = λ ne. has_room;
}

stream-tx_send_byte_example : stream (tx_send_byte 9 com_state) ≡ append_byte 9 (stream com_state)
stream-tx_send_byte_example = stream-tx_send_byte 9 com_state com_state-IsFilling has_room

receive_more_packets_scans_example : seen_of (receive_more_packets com_state) ≡ (
    if not (0 == 0) || waiting_to_report com_state
    then some (seen com_state)
    else some (scan true 0 (seen com_state) (inbox link_state)))
receive_more_packets_scans_example =
    receive_more_packets_scans com_state link_state-IsValid (omega arith, tt)

-- The same with a packet of type 5 in the inbox.
abbrev odd_packet : RadioCom
odd_packet = record com_state {
  node = record node_state {
    link = record link_state {
      rx_packet = set link_state.rx_packet 0 (buffer_of 19 (5 ∷ 2 ∷ 65 ∷ []));
    };
  };
}

receive_loop_stuck_example : receive_loop 1000 odd_packet ≡ none
unfolding rx_current_payload_type
receive_loop_stuck_example = receive_loop_stuck 1000 odd_packet (omega arith) (omega arith)

radio_mac_event-link_handler_example :
    IsRunning (radio_mac_event (link_handler inputs) on_rx 1 link_state receiving).1
    × ((radio_mac_event (link_handler inputs) on_rx 1 link_state receiving).1.irq_done ≡ false)
    × ((radio_mac_event (link_handler inputs) on_rx 1 link_state receiving).1.irq_timeout ≡ false)
    × ((radio_mac_event (link_handler inputs) on_rx 1 link_state receiving).1.strobe ≡ false)
radio_mac_event-link_handler_example =
    radio_mac_event-link_handler inputs on_rx 1 link_state receiving

radio_mac_event_restarts_example :
    IsRunning (radio_mac_event (link_handler inputs) on_rx 1 link_state receiving).1
    × ((radio_mac_event (link_handler inputs) on_rx 1 link_state receiving).1.state
        ≡ (link_handler inputs on_rx link_state (quiet 1 receiving)).1.state)
    × ((radio_mac_event (link_handler inputs) on_rx 1 link_state receiving).1.irq_done ≡ false)
    × ((radio_mac_event (link_handler inputs) on_rx 1 link_state receiving).1.irq_timeout ≡ false)
    × ((radio_mac_event (link_handler inputs) on_rx 1 link_state receiving).1.strobe ≡ false)
radio_mac_event_restarts_example =
    radio_mac_event_restarts (link_handler inputs) on_rx 1 link_state receiving
      (link_handler-Decides inputs)

-- A strobe comes while a packet is being received.
abbrev strobed : Mac Buffer
strobed = record receiving { strobe = true; irq_done = false }

abbrev readings : Readings
readings = record {
  done_marcstate = 0x0D;
  timeout_marcstate = 0x0D;
  listening_marcstate = 0x0D;
  pktstatus = 8;
  worevt1_now = 0;
  idle_marcstate = 0x0D;
  strobe_marcstate = 0x0D;
}

rf_isr_waits_example :
    (strobed.strobe ≡ true)
    × ((strobed.state ≡ tx) ⊎ (strobed.state ≡ rx))
    × (rf_isr (link_handler inputs) readings link_state strobed
        ≡ (link_state, record strobed { s1con = 0 }))
unfolding rf_isr
rf_isr_waits_example = rf_isr_waits (link_handler inputs) readings link_state strobed refl

-- radio_queue.c with a packet to send and a packet of three bytes received.
abbrev radio_state : RadioQueue
radio_state = record {
  rx_packet = replicate 22 0 ∷ buffer_of 18 (3 ∷ 7 ∷ 8 ∷ 9 ∷ []) ∷ replicate 22 0 ∷ [];
  rx_main = 0;
  rx_int = 1;
  tx_packet = replicate 16 (replicate 20 1);
  tx_main = 0;
  tx_int = 15;
  allow_crc_errors = false;
  mac = record {
    strobe = false;
    rx_overflow_occurred = false;
    tx_underflow_occurred = false;
    state = rx;
    commands = [];
    irq_done = true;
    irq_timeout = false;
    irq_rxovf = false;
    irq_txunf = false;
    s1con = 3;
    mcsm0 = 0x14;
    mcsm1 = 0x05;
    mcsm2 = 0x07;
    worctrl = 0;
    worevt1 = 0;
    worevt0 = 0;
    ien2 = 1;
    rfim = 0xF0;
    ea = true;
    pktlen = 19;
    channr = 128;
    dma_armed = true;
    dma_pending = false;
    dma = record { src = rfd; dest = rfd; vlen_lenh = 0b10000000; lenl = 22; dc6 = 19; dc7 = 0x10 };
  };
}

radio_state-IsValid : RadioQueueLaws.IsValid radio_state
radio_state-IsValid = record {
  rx_main_in = omega arith;
  rx_int_in = omega arith;
  tx_main_in = omega arith;
  tx_int_in = omega arith;
}

abbrev radio_inputs : RadioQueue.Inputs
radio_inputs = record { random = 2; crc_passed = true }

event_handler_outcome_example :
    outcome_of (RadioQueue.event_handler radio_inputs on_tx radio_state)
    ≡ on_event radio_inputs false
        (RadioQueueLaws.rx_slot radio_state)
        on_tx
        (RadioQueueLaws.to_send radio_state)
        (RadioQueueLaws.inbox radio_state)
event_handler_outcome_example =
    event_handler_outcome radio_inputs on_tx radio_state radio_state-IsValid (λ e h. nonempty h)
  where
    nonempty : RadioQueueLaws.to_send radio_state ≢ []
    nonempty h = omega (arith, ap length h)
