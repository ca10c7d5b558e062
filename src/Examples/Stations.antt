-- ===== src/Examples/Stations.antt =====
-- Two stations at work: one has a packet queued, sends it, and the other receives and acknowledges it.
use wixel_sdk.Base.{ℕ, ◌≡◌, refl, true, List, [], ◌∷◌, none, arith, inr}
use wixel_sdk.RadioMac.{on_strobe, radio_mac_tx}
use wixel_sdk.RadioLink.Defs.{Link}
use wixel_sdk.RadioLink.Handler.{Inputs, event_handler, tx_data_packet, respond, accept_data}
use wixel_sdk.RadioLink.Peer.{tx_contents}
use wixel_sdk.RadioLink.Delivery.Reliable.{IsPrefix}
use wixel_sdk.RadioLink.Stations.{
  Station, handles, hears, waking, reaching, other_way, Runs, start, onward,
}
use wixel_sdk.RadioLink.Stations.Simulation.{IsReady}
use wixel_sdk.RadioLink.Stations.Ordered.{received_by, stations_deliver_in_order}
use wixel_sdk.Examples.Radio.{
  receiving, link_state, buffer_of, link_state-IsValid, link_state-Loaded,
}

-- `link_state` with nothing received, and with nothing to send.
abbrev sender_link : Link
sender_link = record link_state { rx_int = 0 }

abbrev receiver_link : Link
receiver_link = record link_state { rx_int = 0; tx_main = 0 }

abbrev station : Link → Station
station l = record {
  node = record { link = l; mac = receiving };
  air = none;
  sent = tx_contents l;
  taken = [];
}

abbrev inputs : Inputs
inputs = record { random = 6; crc_passed = true }

-- What the sender's buffer holds after its header is written, and the receiver's answer.
abbrev ping_bytes : List ℕ
ping_bytes = buffer_of 17 (4 ∷ 0 ∷ 1 ∷ 2 ∷ 3 ∷ [])

abbrev ack_bytes : List ℕ
ack_bytes = buffer_of 20 (1 ∷ 128 ∷ [])

abbrev a1 : Station
a1 = handles inputs on_strobe (station sender_link)

abbrev b1 : Station
b1 = hears inputs ping_bytes (station receiver_link)

abbrev a2 : Station
a2 = hears inputs ack_bytes (record a1 { air = none })

at_work : Runs (station sender_link, station receiver_link) (a2, record b1 { air = none })
unfolding event_handler tx_data_packet respond accept_data radio_mac_tx
at_work =
    onward
      (onward (onward start (waking (station sender_link) (station receiver_link) inputs))
        (reaching a1 (station receiver_link) inputs ping_bytes refl (omega arith) refl refl))
      (other_way
        (reaching b1 (record a1 { air = none }) inputs ack_bytes refl (omega arith) refl refl))

sender-IsReady : IsReady (station sender_link)
sender-IsReady = record {
  valid = record {
    rx_sized = link_state-IsValid.rx_sized;
    tx_sized = link_state-IsValid.tx_sized;
    short_size = refl;
    rx_main_in = omega arith;
    rx_int_in = omega arith;
    tx_main_in = omega arith;
    tx_int_in = omega arith;
    rx_seq_bit = omega arith;
    tx_seq_bit = omega arith;
    tries_byte = omega arith;
  };
  loaded = link_state-Loaded;
}

receiver-IsReady : IsReady (station receiver_link)
receiver-IsReady = record {
  valid = record {
    rx_sized = link_state-IsValid.rx_sized;
    tx_sized = link_state-IsValid.tx_sized;
    short_size = refl;
    rx_main_in = omega arith;
    rx_int_in = omega arith;
    tx_main_in = omega arith;
    tx_int_in = omega arith;
    rx_seq_bit = omega arith;
    tx_seq_bit = omega arith;
    tries_byte = omega arith;
  };
  loaded = tt;
}

stations_deliver_in_order_example :
    IsPrefix (received_by (record b1 { air = none })) a2.sent × IsPrefix (received_by a2) b1.sent
stations_deliver_in_order_example =
    stations_deliver_in_order (station sender_link) (station receiver_link)
      (a2, record b1 { air = none }) sender-IsReady receiver-IsReady
      (record {
        quiet = refl;
        bit = omega arith;
        silent = refl;
        expected = inr (omega arith);
        accounted = refl;
      })
      (record {
        quiet = refl;
        bit = omega arith;
        silent = refl;
        expected = inr (omega arith);
        accounted = refl;
      })
      at_work

-- The packet has arrived, and is off the sender's queue.
arrived : received_by b1 ≡ (station sender_link).sent
unfolding event_handler tx_data_packet respond accept_data
arrived = refl

acknowledged : tx_contents a2.node.link ≡ []
unfolding event_handler tx_data_packet respond accept_data
acknowledged = refl
