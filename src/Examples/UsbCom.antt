-- ===== src/Examples/UsbCom.antt =====
-- The virtual serial port at concrete inputs.
use wixel_sdk.Base.{ℕ, ◌≡◌, refl, true, false, List, [], ◌∷◌, ◌++◌, arith, inl, inr, replicate}
use wixel_sdk.Usb.Defs.{Usb}
use wixel_sdk.Usb.Control.{sent_bytes}
use wixel_sdk.UsbCom.Callbacks.{Layout}
use wixel_sdk.UsbCom.Port.{
  Com, tx_available, tx_send, tx_send_byte, send_packet_now, tx_send_rounds, service,
}
use wixel_sdk.UsbCom.Stream.{IsValid, stream}
use wixel_sdk.UsbCom.Runs.{
  Run, start, sends, sends_byte, collects, collect, run_streams, Ended, service-Ended,
}
use wixel_sdk.UsbCom.LineCoding.{set_and_get, set_and_get-line_coding}
use wixel_sdk.Usb.Poll.{Registers, poll}
use wixel_sdk.Examples.Usb.{usb_state}

abbrev pub com_state : Com
com_state = record {
  usb = usb_state;
  serial_state = 0;
  send_empty_soon = false;
  loaded = 0;
  in_fifo = [];
  in_packets = [];
  in_flight = 0;
  out_packets = [];
  notifications = [];
  in_bootloader = false;
}

pub com_state-IsValid : IsValid com_state
com_state-IsValid = record {
  counted = refl;
  short = omega arith;
  double = omega arith;
  full = inl (omega arith);
  sizes = tt;
  soon = refl;
}

-- A full packet and one byte, the packet collected, and another byte
abbrev sent_twice : Com
sent_twice = tx_send_byte 8 (collect (tx_send (replicate 65 7) com_state))

busy_run : Run com_state (([] ++ replicate 65 7) ++ 8 ∷ []) sent_twice
unfolding tx_available tx_send tx_send_rounds send_packet_now
busy_run = sends_byte (collects (sends start (replicate 65 7) (omega arith))) 8 (omega arith)

run_streams_example :
    IsValid sent_twice
    × (stream sent_twice ≡ stream com_state ++ (([] ++ replicate 65 7) ++ 8 ∷ []))
run_streams_example = run_streams com_state-IsValid busy_run

-- A full packet has been sent and collected: an empty one follows.
abbrev full_sent : Com
full_sent = record com_state { send_empty_soon = true; in_packets = replicate 64 7 ∷ [] }

abbrev pub layout : Layout
layout = record {
  line_coding = 10;
  control_line_state = 17;
  last_reported = 18;
  bootloader_soon = 19;
  request_time = 20;
  device_descriptor = 2;
  configuration_descriptor = 0;
  string_descriptors = [];
}

abbrev idle_usb : Usb
idle_usb = record usb_state { xdata = replicate 21 0 }

-- 115200 baud, 8 data bits
abbrev coding : List ℕ
coding = 0 ∷ 0xC2 ∷ 1 ∷ 0 ∷ 0 ∷ 0 ∷ 8 ∷ []

set_and_get-line_coding_example :
    sent_bytes (set_and_get 0 layout (λ u. u) 5 coding idle_usb).writes ≡ [] ++ coding
set_and_get-line_coding_example =
    set_and_get-line_coding 0 layout (λ u. u) 5 coding idle_usb refl (λ u. refl) refl (omega arith)
      (omega arith) (inr (omega arith)) (inr (omega arith))

-- USB power is present, and nothing has happened on the bus.
abbrev quiet : Registers
quiet = record {
  power = true;
  vin = true;
  usbcif = 0;
  usbiif = 0;
  usbcs0 = 0;
  usbcnt0 = 0;
  received = [];
}

-- One service of the port, whose full packet the host has collected
abbrev serviced : Com
serviced = service 0 layout (λ u. u) 5 quiet false 9 (record full_sent { usb = idle_usb })

service-Ended_example : Ended (replicate 64 7) serviced
unfolding poll
service-Ended_example =
    service-Ended 0 layout (λ u. u) 5 quiet false 9 (record full_sent { usb = idle_usb })
      (record {
        counted = refl;
        short = omega arith;
        double = omega arith;
        full = inl (omega arith);
        sizes = (omega arith, tt);
        soon = refl;
      })
      refl refl (inl refl)
