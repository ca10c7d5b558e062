-- ===== src/Examples/UsbHid.antt =====
-- The keyboard at concrete inputs.
use wixel_sdk.Base.{true, false, set, inl, ◌≡◌, refl, [], ◌∷◌, ◌++◌, arith, replicate}
use wixel_sdk.Usb.Defs.{Usb, configured}
use wixel_sdk.Usb.Control.{sent_bytes}
use wixel_sdk.UsbHid.Idle.{set_and_get_idle, set_and_get_idle_lem}
use wixel_sdk.UsbHid.{Layout, Hid, service, app}
use wixel_sdk.UsbHid.Requests.{app-LeavesSetup}
use wixel_sdk.Usb.Requests.{get_descriptor}
use wixel_sdk.Usb.Descriptors.{Limited, get_descriptor-Limited}
use wixel_sdk.UsbHid.Reports.{Reported}
use wixel_sdk.UsbHid.Runs.{start, updates, run_reports}
use wixel_sdk.Usb.Poll.{Registers, poll}
use wixel_sdk.Examples.Usb.{usb_state}

abbrev layout : Layout
layout = record {
  keyboard_input = 0;
  mouse_input = 8;
  joystick_input = 12;
  keyboard_output = 32;
  idle_duration = 33;
  keyboard_protocol = 35;
  mouse_protocol = 36;
  response = 37;
  device_descriptor = 38;
  configuration_descriptor = 38;
  string_descriptors = [];
  keyboard_hid = 38;
  mouse_hid = 38;
  joystick_hid = 38;
  keyboard_report_descriptor = 38;
  mouse_report_descriptor = 38;
  joystick_report_descriptor = 38;
}

abbrev idle_usb : Usb
idle_usb = record usb_state { xdata = replicate 39 0 }

-- The host asks for 20 bytes of the report descriptor of the keyboard, which has 58.
abbrev asked : Usb
asked = record idle_usb { setup = 0x81 ∷ 6 ∷ 0 ∷ 0x22 ∷ 0 ∷ 0 ∷ 20 ∷ 0 ∷ [] }

get_descriptor-Limited_example : Limited 20 (get_descriptor (app layout) asked)
get_descriptor-Limited_example =
    get_descriptor-Limited (app layout) asked (app-LeavesSetup layout) refl

-- 125, for half a second
set_and_get_idle_lem_example :
    sent_bytes (set_and_get_idle 0 layout 125 idle_usb).writes ≡ [] ++ 125 ∷ []
set_and_get_idle_lem_example =
    set_and_get_idle_lem 0 layout 125 idle_usb (omega arith) refl (omega arith) (omega arith)

abbrev hid_state : Hid
hid_state = record {
  usb = record idle_usb { device_state = configured };
  keyboard_updated = true;
  mouse_updated = true;
  joystick_updated = true;
  last_report_time = 0;
  reports = [];
}

-- The key of the letter a is pressed.
abbrev pressed : Hid
pressed = record hid_state { usb = record (hid_state.usb) { xdata = set hid_state.usb.xdata 2 4 } }

abbrev nothing : Registers
nothing = record {
  power = true;
  vin = false;
  usbcif = 0;
  usbiif = 0;
  usbcs0 = 0;
  usbcnt0 = 0;
  received = [];
}

run_reports_example : Reported layout (
    service 0 layout nothing
      (record { keyboard = false; mouse = false; joystick = false })
      5
      5
      pressed)
unfolding poll
run_reports_example =
    run_reports layout hid_state pressed 0 nothing 5 5
      (record { keyboard = inl refl; mouse = inl refl; joystick = inl refl })
      (updates start
        (record { reports = refl; keyboard = inl refl; mouse = inl refl; joystick = inl refl }))
      (record { keyboard = refl; mouse = refl; joystick = refl }) refl
