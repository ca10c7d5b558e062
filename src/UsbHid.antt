-- ===== src/UsbHid.antt =====
-- libraries/src/usb_hid/usb_hid.c: a keyboard, a mouse and a joystick as an application of the USB core. The
-- variables that the callbacks change are in memory, at the addresses of a layout.
pub mod Idle
pub mod KeyCodes
pub mod Reports
pub mod Runs
pub mod Requests
use wixel_sdk.Base.{
  ℕ, ◌+◌, ◌-◌, ◌*◌, ◌/◌, ◌%◌, ◌^◌, Bool, true, false, not, ◌&&◌, ◌||◌, List, [], ◌∷◌, ◌++◌,
  if◌then◌else◌, ◌==◌, ltb, u8, u16, truth, bit_and, get_or, set,
}
use wixel_sdk.Usb.Defs.{
  Usb, configured, b_request, w_value, w_index, control_read, control_write, control_acknowledge,
  init_endpoint_in, copy_out,
}
use wixel_sdk.Usb.Requests.{App}
use wixel_sdk.Usb.Poll.{Registers, poll}

pub record Layout : Type 0 where
  pub keyboard_input : ℕ
  pub mouse_input : ℕ
  pub joystick_input : ℕ
  pub keyboard_output : ℕ
  pub idle_duration : ℕ
  pub keyboard_protocol : ℕ
  pub mouse_protocol : ℕ
  pub response : ℕ
  pub device_descriptor : ℕ
  pub configuration_descriptor : ℕ
  pub string_descriptors : List ℕ
  pub keyboard_hid : ℕ
  pub mouse_hid : ℕ
  pub joystick_hid : ℕ
  pub keyboard_report_descriptor : ℕ
  pub mouse_report_descriptor : ℕ
  pub joystick_report_descriptor : ℕ

-- sizeof of the three reports: 1 + 1 + 6, 1 + 3, and 8 * 2 + 4 bytes
abbrev pub keyboard_size : ℕ
keyboard_size = 8

abbrev pub mouse_size : ℕ
mouse_size = 4

abbrev pub joystick_size : ℕ
joystick_size = 20

abbrev pub store : ℕ → ℕ → Usb → Usb
store at value s = record s { xdata = set s.xdata at value }

abbrev pub byte_at : ℕ → Usb → ℕ
byte_at at s = get_or s.xdata at 0

-- hidKeyboardIdleDuration, a uint16
abbrev pub idle_duration : Layout → Usb → ℕ
idle_duration l s = byte_at l.idle_duration s + byte_at (l.idle_duration + 1) s * 2 ^ 8

-- `usbCallbackInitEndpoints`
unfoldable pub init_endpoints : Usb → Usb
unfolding init_endpoint_in
init_endpoints s = init_endpoint_in 3 20 (init_endpoint_in 2 4 (init_endpoint_in 1 8 s))

abbrev pub get_report : Layout → Usb → Usb
get_report l s =
    if not (w_value s / 2 ^ 8 == 1)
    then s
    else if w_index s == 0
    then control_read keyboard_size l.keyboard_input s
    else if w_index s == 1
    then control_read mouse_size l.mouse_input s
    else if w_index s == 2
    then control_read joystick_size l.joystick_input s
    else s

abbrev pub set_report : Layout → Usb → Usb
set_report l s = if w_index s == 0 then control_write 1 l.keyboard_output s else s

-- The byte `response` of a handler
abbrev pub respond : Layout → ℕ → Usb → Usb
respond l value s = control_read 1 l.response (store l.response value s)

abbrev pub get_idle : Layout → Usb → Usb
get_idle l s = if w_index s == 0 then respond l (u8 (idle_duration l s / 4)) s else s

abbrev pub set_idle : Layout → Usb → Usb
set_idle l s =
    let duration = u16 (w_value s / 2 ^ 8 * 4) in
    if w_index s == 0
    then control_acknowledge
        (store (l.idle_duration + 1) (duration / 2 ^ 8) (store l.idle_duration (u8 duration) s))
    else s

abbrev pub get_protocol : Layout → Usb → Usb
get_protocol l s =
    if w_index s == 0
    then respond l (byte_at l.keyboard_protocol s) s
    else if w_index s == 1
    then respond l (byte_at l.mouse_protocol s) s
    else s

-- The protocols are single bits: 1 for any other value than 0.
abbrev pub set_protocol : Layout → Usb → Usb
set_protocol l s =
    let protocol = if w_value s == 0 then 0 else 1 in
    if w_index s == 0
    then control_acknowledge (store l.keyboard_protocol protocol s)
    else if w_index s == 1
    then control_acknowledge (store l.mouse_protocol protocol s)
    else s

-- `usbCallbackSetupHandler`
unfoldable pub setup_handler : Layout → Usb → Usb
unfolding control_read control_write control_acknowledge
setup_handler l s =
    let request = b_request s in
    if not (bit_and (get_or s.setup 0 0) 0x7F == 0x21)
    then s
    else if request == 1
    then get_report l s
    else if request == 9
    then set_report l s
    else if request == 2
    then get_idle l s
    else if request == 10
    then set_idle l s
    else if request == 3
    then get_protocol l s
    else if request == 11
    then set_protocol l s
    else s

-- `usbCallbackClassDescriptorHandler`: the HID descriptors have 9 bytes, the report descriptors 58, 46 and 56.
unfoldable pub class_descriptor_handler : Layout → Usb → Usb
unfolding control_read
class_descriptor_handler l s =
    let kind = w_value s / 2 ^ 8 in
    let three : ℕ → ℕ → ℕ → ℕ → ℕ → ℕ → Usb = λ n keyboard m mouse k joystick.
      if w_index s == 0
      then control_read n keyboard s
      else if w_index s == 1
      then control_read m mouse s
      else if w_index s == 2
      then control_read k joystick s
      else s in
    if not (get_or s.setup 0 0 == 0x81)
    then s
    else if kind == 0x21
    then three 9 l.keyboard_hid 9 l.mouse_hid 9 l.joystick_hid
    else if kind == 0x22
    then three 58 l.keyboard_report_descriptor 46 l.mouse_report_descriptor 56
        l.joystick_report_descriptor
    else s

unfoldable pub app : Layout → App
unfolding setup_handler class_descriptor_handler init_endpoints
app l = record {
  device_descriptor = l.device_descriptor;
  configuration_descriptor = l.configuration_descriptor;
  string_descriptors = l.string_descriptors;
  setup_handler = setup_handler l;
  control_write_handler = λ s. s;
  class_descriptor_handler = class_descriptor_handler l;
  init_endpoints = init_endpoints;
}

-- The bits that ask for a report, the time of the last one of the keyboard, and the reports sent: the
-- endpoint and the bytes.
pub record Hid : Type 0 where
  pub usb : Usb
  pub keyboard_updated : Bool
  pub mouse_updated : Bool
  pub joystick_updated : Bool
  pub last_report_time : ℕ
  pub reports : List (ℕ × List ℕ)

-- usbWriteFifo and INPKT_RDY on an endpoint
abbrev pub send : ℕ → ℕ → ℕ → Hid → Hid
send endpoint size at h = record h {
  reports = h.reports ++ (endpoint, copy_out size at h.usb.xdata) ∷ [];
}

abbrev pub select : ℕ → Hid → Hid
select endpoint h = record h { usb = record (h.usb) { usbindex = endpoint } }

-- `hidKeyboardIdleDuration && ((uint16)(getMs() - hidKeyboardLastReportTime) > hidKeyboardIdleDuration)`
abbrev pub idle_over : Layout → ℕ → Hid → Bool
idle_over l now h =
    let duration = idle_duration l h.usb in
    truth duration && ltb duration ((now + 2 ^ 16 - h.last_report_time) % 2 ^ 16)

-- The three parts of `usbHidService`; `busy` is INPKT_RDY of the endpoint, `now` and `later` what getMs
-- returns.
unfoldable pub keyboard_part : Layout → Bool → ℕ → ℕ → Hid → Hid
keyboard_part l busy now later h0 =
    let h = select 1 h0 in
    if (h.keyboard_updated || idle_over l now h) && not busy
    then record (send 1 keyboard_size l.keyboard_input h) {
      keyboard_updated = false;
      last_report_time = u16 later;
    }
    else h

unfoldable pub mouse_part : Layout → Bool → Hid → Hid
mouse_part l busy h0 =
    let h = select 2 h0 in
    if h.mouse_updated && not busy
    then record (send 2 mouse_size l.mouse_input h) { mouse_updated = false }
    else h

unfoldable pub joystick_part : Layout → Bool → Hid → Hid
joystick_part l busy h0 =
    let h = select 3 h0 in
    if h.joystick_updated && not busy
    then record (send 3 joystick_size l.joystick_input h) { joystick_updated = false }
    else h

-- INPKT_RDY of the three endpoints
pub record Busy : Type 0 where
  pub keyboard : Bool
  pub mouse : Bool
  pub joystick : Bool

-- `usbHidService`
unfoldable pub service : ℕ → Layout → Registers → Busy → ℕ → ℕ → Hid → Hid
unfolding poll app keyboard_part mouse_part joystick_part
service response l r busy now later h0 =
    let h = record h0 { usb = poll response (app l) r h0.usb } in
    if h.usb.device_state == configured
    then joystick_part l busy.joystick
        (mouse_part l busy.mouse (keyboard_part l busy.keyboard now later h))
    else h

-- The codes of usb_hid_constants.h for the ASCII characters
abbrev pub hid_key_code : List ℕ
hid_key_code =
    0 ∷ 0 ∷ 0 ∷ 0 ∷ 0 ∷ 0 ∷ 0 ∷ 0 ∷ 42 ∷ 43 ∷ 40 ∷ 0 ∷ 0 ∷ 40 ∷ 0 ∷ 0 ∷ 0 ∷ 0 ∷ 0 ∷ 0 ∷ 0 ∷ 0 ∷ 0
    ∷ 0 ∷ 0 ∷ 0 ∷ 0 ∷ 41 ∷ 0 ∷ 0 ∷ 0 ∷ 0 ∷ 44 ∷ 30 ∷ 52 ∷ 32 ∷ 33 ∷ 34 ∷ 36 ∷ 52 ∷ 38 ∷ 39 ∷ 37 ∷ 46
    ∷ 54 ∷ 45 ∷ 55 ∷ 56 ∷ 39 ∷ 30 ∷ 31 ∷ 32 ∷ 33 ∷ 34 ∷ 35 ∷ 36 ∷ 37 ∷ 38 ∷ 51 ∷ 51 ∷ 54 ∷ 46 ∷ 55
    ∷ 56 ∷ 31 ∷ 4 ∷ 5 ∷ 6 ∷ 7 ∷ 8 ∷ 9 ∷ 10 ∷ 11 ∷ 12 ∷ 13 ∷ 14 ∷ 15 ∷ 16 ∷ 17 ∷ 18 ∷ 19 ∷ 20 ∷ 21
    ∷ 22 ∷ 23 ∷ 24 ∷ 25 ∷ 26 ∷ 27 ∷ 28 ∷ 29 ∷ 47 ∷ 49 ∷ 48 ∷ 35 ∷ 45 ∷ 53 ∷ 4 ∷ 5 ∷ 6 ∷ 7 ∷ 8 ∷ 9
    ∷ 10 ∷ 11 ∷ 12 ∷ 13 ∷ 14 ∷ 15 ∷ 16 ∷ 17 ∷ 18 ∷ 19 ∷ 20 ∷ 21 ∷ 22 ∷ 23 ∷ 24 ∷ 25 ∷ 26 ∷ 27 ∷ 28
    ∷ 29 ∷ 47 ∷ 49 ∷ 48 ∷ 53 ∷ 76 ∷ []

-- `usbHidKeyCodeFromAsciiChar`, on a character as a byte
unfoldable pub key_code_from_ascii_char : ℕ → ℕ
key_code_from_ascii_char c = if truth (bit_and c 0x80) then 0 else get_or hid_key_code c 0
