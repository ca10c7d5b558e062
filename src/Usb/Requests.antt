-- ===== src/Usb/Requests.antt =====
-- libraries/src/usb/usb.c: usbStandardDeviceRequestHandler. The application's descriptors and callbacks
-- are a record of their own.
use wixel_sdk.Base.{
  ℕ, ◌+◌, ◌*◌, ◌/◌, ◌%◌, ◌^◌, Bool, true, false, ◌&&◌, not, List, get_or, set, u8, if◌then◌else◌,
  ◌==◌, ltb, leb, length,
}
use wixel_sdk.Usb.Defs.{
  Usb, ControlState, idle, reading, default_state, address, configured, recipient, b_request,
  w_value, w_index, w_length, control_read, control_acknowledge,
}

-- Where the descriptors are in memory, and what the application does when it is called.
pub record App : Type 0 where
  pub device_descriptor : ℕ
  pub configuration_descriptor : ℕ
  pub string_descriptors : List ℕ
  pub setup_handler : Usb → Usb
  pub control_write_handler : Usb → Usb
  pub class_descriptor_handler : Usb → Usb
  pub init_endpoints : Usb → Usb

abbrev pub descriptor_device_size : ℕ
descriptor_device_size = 18

abbrev pub is_idle : ControlState → Bool
is_idle idle = true
is_idle c = false

abbrev pub word_in : Usb → ℕ → ℕ
word_in s a = get_or s.xdata a 0 + get_or s.xdata (a + 1) 0 * 2 ^ 8

-- The end of USB_REQUEST_GET_DESCRIPTOR: no more is sent than the host has asked for.
abbrev pub limited : Usb → Usb
limited s = record s {
  bytes_left = if ltb (w_length s) s.bytes_left then w_length s else s.bytes_left;
  control = reading;
}

abbrev pub device : App → Usb → Usb
device app s =
    limited (record s { pointer = app.device_descriptor; bytes_left = descriptor_device_size })

abbrev pub configuration : App → Usb → Usb
configuration app s =
    if w_value s % 2 ^ 8 == 0
    then limited (record s {
      pointer = app.configuration_descriptor;
      bytes_left = word_in s (app.configuration_descriptor + 2);
    })
    else s

abbrev pub string : App → Usb → Usb
string app s =
    let index = w_value s % 2 ^ 8 in
    let at = get_or app.string_descriptors index 0 in
    if ltb index (length app.string_descriptors)
    then limited (record s { pointer = at; bytes_left = get_or s.xdata at 0 })
    else s

abbrev pub class_specific : App → Usb → Usb
class_specific app s =
    let s' = app.class_descriptor_handler s in if is_idle s'.control then s' else limited s'

unfoldable pub get_descriptor : App → Usb → Usb
get_descriptor app s =
    let kind = w_value s / 2 ^ 8 in
    if kind == 1
    then device app s
    else if kind == 2
    then configuration app s
    else if kind == 3
    then string app s
    else class_specific app s

unfoldable pub set_address : Usb → Usb
unfolding control_acknowledge
set_address s = control_acknowledge (record s {
  usbaddr = u8 (w_value s);
  device_state = if u8 (w_value s) == 0 then default_state else address;
})

unfoldable pub set_configuration : App → Usb → Usb
unfolding control_acknowledge
set_configuration app s =
    if w_value s == 0
    then control_acknowledge
        (record s { device_state = if ltb address s.device_state then address else s.device_state })
    else if w_value s == 1
    then control_acknowledge (app.init_endpoints (record s { device_state = configured }))
    else s

-- `response[0] = value;`, where the two bytes of `response` are at an address
abbrev respond_with : ℕ → ℕ → ℕ → Usb → Usb
respond_with response value count s =
    control_read count response (record s { xdata = set s.xdata response value })

-- bNumInterfaces is byte 4 of the configuration descriptor.
abbrev interfaces : App → Usb → ℕ
interfaces app s = get_or s.xdata (app.configuration_descriptor + 4) 0

unfoldable pub get_interface : ℕ → App → Usb → Usb
unfolding control_read
get_interface response app s =
    if ltb s.device_state configured
    then s
    else if leb (interfaces app s) (w_index s)
    then s
    else control_read 1 response s

unfoldable pub get_status : ℕ → Bool → App → Usb → Usb
unfolding control_read
get_status response vin app s =
    if recipient s == 0
    then respond_with response (if vin then 1 else 0) 2 s
    else if recipient s == 1
    then (if ltb s.device_state configured && not (w_index s == 0)
        then s
        else if leb (interfaces app s) (w_index s)
        then s
        else control_read 2 response s)
    else if recipient s == 2
    then (if w_value s % 2 ^ 4 == 0
        then s
        else if ltb s.device_state configured
        then s
        else control_read 2 response s)
    else s

-- `usbStandardDeviceRequestHandler`, with the address of its static `response` and vinPowerPresent
unfoldable pub standard_device_request : ℕ → Bool → App → Usb → Usb
unfolding get_descriptor set_address set_configuration get_interface get_status control_acknowledge
    control_read
standard_device_request response vin app s0 =
    let s = record s0 { xdata = set (set s0.xdata response 0) (response + 1) 0 } in
    if b_request s == 6
    then get_descriptor app s
    else if b_request s == 5
    then set_address s
    else if b_request s == 9
    then set_configuration app s
    else if b_request s == 8
    then respond_with response (if s.device_state == configured then 1 else 0) 1 s
    else if b_request s == 10
    then get_interface response app s
    else if b_request s == 0
    then get_status response vin app s
    else if b_request s == 3
    then control_acknowledge s
    else if b_request s == 1
    then control_acknowledge s
    else if b_request s == 12
    then control_read 2 response s
    else s
