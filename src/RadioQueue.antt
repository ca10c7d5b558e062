-- ===== src/RadioQueue.antt =====
-- libraries/src/radio_queue/radio_queue.c: packets queued for the radio and packets received, without
-- acknowledgements. `randomNumber` and `radioCrcPassed` are inputs of the interrupt handler.
pub mod Laws
use wixel_sdk.Base.{
  ℕ, ◌+◌, ◌-◌, ◌^◌, Bool, true, false, not, ◌&&◌, List, [], Option, none, some, if◌then◌else◌, ◌==◌,
  ltb, u8, u16, bit_and, truth, byte_of, next_index, replicate,
}
use wixel_sdk.RadioMac.{
  Mac, Event, on_tx, on_rx, on_rx_timeout, on_strobe, radio_mac_strobe, radio_mac_init,
  radio_mac_rx, radio_mac_tx,
}

-- RADIO_QUEUE_PAYLOAD_SIZE, which is RADIO_MAX_PACKET_SIZE here
abbrev pub max_packet_size : ℕ
max_packet_size = 19

abbrev pub rx_packet_count : ℕ
rx_packet_count = 3

abbrev pub tx_packet_count : ℕ
tx_packet_count = 16

-- `radioQueueTxPacket[i]` and `radioQueueRxPacket[i]`
pub data Buffer : Type 0 where
  tx_buffer rx_buffer : ℕ → Buffer

pub record RadioQueue : Type 0 where
  pub rx_packet : List (List ℕ)
  pub rx_main : ℕ
  pub rx_int : ℕ
  pub tx_packet : List (List ℕ)
  pub tx_main : ℕ
  pub tx_int : ℕ
  pub allow_crc_errors : Bool
  pub mac : Mac Buffer

pub record Inputs : Type 0 where
  pub random : ℕ
  pub crc_passed : Bool

-- `radioQueueInit`, after the seeding of the random numbers; the channel is `param_radio_channel`.
unfoldable pub init : ℕ → RadioQueue → RadioQueue
init channel q = record q {
  mac =
      radio_mac_strobe
        (radio_mac_init (record (q.mac) { pktlen = max_packet_size; channr = u8 channel }));
}

-- `randomTxDelay`
abbrev pub random_tx_delay : ℕ → ℕ
random_tx_delay random = u8 (1 + bit_and random 3)

-- `radioQueueTxAvailable` and `radioQueueTxQueued`
unfoldable pub tx_available : RadioQueue → ℕ
tx_available q = bit_and (u16 (q.tx_int + 2 ^ 16 - q.tx_main + 2 ^ 16 - 1)) (tx_packet_count - 1)

unfoldable pub tx_queued : RadioQueue → ℕ
tx_queued q = bit_and (u16 (q.tx_main + 2 ^ 16 - q.tx_int)) (tx_packet_count - 1)

-- `radioQueueTxCurrentPacket`: the index of the buffer to fill, or null.
unfoldable pub tx_current_packet : RadioQueue → Option ℕ
unfolding tx_available
tx_current_packet q = if not (truth (tx_available q)) then none else some q.tx_main

-- `radioQueueTxSendPacket`
unfoldable pub tx_send_packet : RadioQueue → RadioQueue
tx_send_packet q = record q {
  tx_main = next_index tx_packet_count q.tx_main;
  mac = radio_mac_strobe q.mac;
}

-- `radioQueueRxCurrentPacket`: the index of the buffer to read, or null.
unfoldable pub rx_current_packet : RadioQueue → Option ℕ
rx_current_packet q = if q.rx_main == q.rx_int then none else some q.rx_main

-- `radioQueueRxDoneWithPacket`
unfoldable pub rx_done_with_packet : RadioQueue → RadioQueue
rx_done_with_packet q = record q { rx_main = next_index rx_packet_count q.rx_main }

abbrev listen : ℕ → RadioQueue → RadioQueue
listen timeout q = record q { mac = radio_mac_rx (rx_buffer q.rx_int) timeout q.mac }

-- `takeInitiative`
unfoldable pub take_initiative : RadioQueue → RadioQueue
take_initiative q =
    if not (q.tx_int == q.tx_main)
    then record q { mac = radio_mac_tx (tx_buffer q.tx_int) q.mac }
    else listen 0 q

-- A packet is given to the main loop if it has data and a buffer stays free for the next one.
abbrev pub accept : RadioQueue → RadioQueue
accept q =
    if ltb 0 (byte_of q.rx_packet q.rx_int 0)
    then (let next = next_index rx_packet_count q.rx_int in
        if not (next == q.rx_main) then record q { rx_int = next } else q)
    else q

unfoldable pub received : Inputs → RadioQueue → RadioQueue
unfolding take_initiative
received i q =
    if not q.allow_crc_errors && not i.crc_passed
    then (if not (q.tx_int == q.tx_main) then listen (random_tx_delay i.random) q else listen 0 q)
    else take_initiative (accept q)

-- `radioMacEventHandler`
unfoldable pub event_handler : Inputs → Event → RadioQueue → RadioQueue
unfolding received take_initiative
event_handler i on_strobe q = take_initiative q
event_handler i on_tx q =
    listen (random_tx_delay i.random) (record q { tx_int = next_index tx_packet_count q.tx_int })
event_handler i on_rx q = received i q
event_handler i on_rx_timeout q = take_initiative q
