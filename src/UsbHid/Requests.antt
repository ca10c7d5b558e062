-- ===== src/UsbHid/Requests.antt =====
-- The request for a class-specific descriptor, as the USB core hands it to the HID library.
use wixel_sdk.Base.{ℕ, ◌≡◌, ◌==◌, ◌/◌, ◌^◌, refl, if◌then◌else◌, if_both, get_or, not}
use wixel_sdk.Usb.Defs.{Usb, control_read, w_index, w_value}
use wixel_sdk.Usb.Descriptors.{LeavesSetup}
use wixel_sdk.UsbHid.{Layout, app, class_descriptor_handler}

control_read-setup : (n p : ℕ) (s : Usb) → (control_read n p s).setup ≡ s.setup
unfolding control_read
control_read-setup n p s = refl

-- The choice by interface between three control reads
three-setup :
    (n p m q k r : ℕ) (s : Usb)
    → (if w_index s == 0
        then control_read n p s
        else if w_index s == 1
        then control_read m q s
        else if w_index s == 2
        then control_read k r s
        else s).setup
      ≡ s.setup
three-setup n p m q k r s =
    let Keeps = λ (t : Usb). t.setup ≡ s.setup in
    let last = if w_index s == 2 then control_read k r s else s in
    let more = if w_index s == 1 then control_read m q s else last in
    if_both {x = control_read n p s} {y = more} Keeps (w_index s == 0) (control_read-setup n p s) (
      if_both {x = control_read m q s} {y = last} Keeps (w_index s == 1) (control_read-setup m q s)
        (if_both {x = control_read k r s} {y = s} Keeps (w_index s == 2) (control_read-setup k r s)
          refl))

class_descriptor_handler-setup :
    (l : Layout) (s : Usb) → (class_descriptor_handler l s).setup ≡ s.setup
unfolding class_descriptor_handler
class_descriptor_handler-setup l s =
    let Keeps = λ (t : Usb). t.setup ≡ s.setup in
    let kind = w_value s / 2 ^ 8 in
    if_both Keeps (not (get_or s.setup 0 0 == 0x81)) refl (
      if_both Keeps (kind == 0x21) (three-setup 9 l.keyboard_hid 9 l.mouse_hid 9 l.joystick_hid s) (
        if_both Keeps (kind == 0x22)
          (three-setup 58 l.keyboard_report_descriptor 46 l.mouse_report_descriptor 56
            l.joystick_report_descriptor s)
          refl))

pub app-LeavesSetup : (l : Layout) → LeavesSetup (app l)
unfolding app
app-LeavesSetup l s = class_descriptor_handler-setup l s
