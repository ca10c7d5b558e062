-- ===== src/Examples/Usb.antt =====
-- The USB core at concrete inputs.
use wixel_sdk.Base.{◌+◌, ◌≡◌, refl, true, false, [], ◌∷◌, arith, inr, get_or}
use wixel_sdk.Usb.Defs.{Usb, idle, cs0, fifo, copy_out, control_read, control_write, write_fifo}
use wixel_sdk.Usb.Requests.{App, standard_device_request, get_status}
use wixel_sdk.Usb.Poll.{
  Registers, endpoint0, out_packet, in_packet, last_packet, take_data, setup_packet, take_setup,
}
use wixel_sdk.Usb.Control.{
  Completes, in_polls, control_read-in_polls, Answered, out_packet-Answered, take_data-bounds,
}

-- A configured device that has been asked for the status of its endpoint 1.
abbrev pub usb_state : Usb
usb_state = record {
  setup = 0x82 ∷ 0 ∷ 0 ∷ 1 ∷ 1 ∷ 0 ∷ 2 ∷ 0 ∷ [];
  device_state = 16;
  control = idle;
  bytes_left = 0;
  pointer = 0;
  suspend_mode = false;
  activity = false;
  xdata = 0 ∷ 0 ∷ 18 ∷ 1 ∷ 0 ∷ 2 ∷ [];
  writes = [];
  enabled = true;
  pullup = true;
  usbpow = 1;
  usbcie = 7;
  usbindex = 0;
  usbaddr = 5;
  usbmaxi = 0;
  usbmaxo = 0;
  usbcsih = 0;
  usbcsoh = 0;
}

abbrev app : App
app = record {
  device_descriptor = 2;
  configuration_descriptor = 0;
  string_descriptors = [];
  setup_handler = control_write 4 0;
  control_write_handler = λ s. s;
  class_descriptor_handler = λ s. s;
  init_endpoints = λ s. s;
}

-- A SETUP packet has been received, which asks for the status of the device.
abbrev registers : Registers
registers = record {
  power = true;
  vin = true;
  usbcif = 0;
  usbiif = 1;
  usbcs0 = 1;
  usbcnt0 = 8;
  received = 0x80 ∷ 0 ∷ 0 ∷ 0 ∷ 0 ∷ 0 ∷ 2 ∷ 0 ∷ [];
}

control_read-in_polls_example :
    Completes []
      (copy_out 40 0 usb_state.xdata)
      (in_polls 2 0 app registers (control_read 40 0 usb_state))
unfolding control_read
control_read-in_polls_example =
    control_read-in_polls 0 app registers 2 (control_read 40 0 usb_state) refl (omega arith)
      (omega arith)

out_packet-Answered_example :
    Answered 0 app registers usb_state (out_packet 0 app registers usb_state)
out_packet-Answered_example = out_packet-Answered 0 app registers usb_state

abbrev filling : Usb
filling = control_write 3 1 usb_state

take_data-bounds_example :
    (get_or (take_data registers filling).xdata 4 0 ≡ 0)
    × ((take_data registers filling).pointer + (take_data registers filling).bytes_left ≡ 4)
unfolding control_write
take_data-bounds_example = take_data-bounds registers filling 4 (omega arith) (inr (omega arith))

-- A control read begins, and its two bytes are sent, without a write that clears OUTPKT_RDY.
read_writes : (endpoint0 0 app registers usb_state).writes ≡ cs0 10 ∷ fifo (1 ∷ 0 ∷ []) ∷ []
unfolding endpoint0 out_packet setup_packet take_setup standard_device_request get_status
    control_read in_packet last_packet write_fifo
read_writes = refl

-- The host asks for the status of endpoint 1, which is the wIndex of the request, and is stalled.
endpoint_stalled :
    (standard_device_request 0 false app
      (record usb_state { setup = 0x82 ∷ 0 ∷ 0 ∷ 0 ∷ 1 ∷ 0 ∷ 2 ∷ 0 ∷ [] })).control
    ≡ idle
unfolding standard_device_request get_status
endpoint_stalled = refl
