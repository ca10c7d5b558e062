-- ===== src/UsbCom/Callbacks.antt =====
-- libraries/src/usb_cdc_acm/usb_cdc_acm.c: the callbacks that the USB core calls. The variables that they
-- change are in memory, at the addresses of a layout.
use wixel_sdk.Base.{
  ℕ, ◌+◌, ◌*◌, ◌^◌, not, ◌&&◌, ◌||◌, List, if◌then◌else◌, ◌==◌, u8, bit_and, get_or, set,
}
use wixel_sdk.Usb.Defs.{
  Usb, b_request, w_value, w_index, control_read, control_write, control_acknowledge,
  init_endpoint_in, init_endpoint_out,
}
use wixel_sdk.Usb.Requests.{App}

pub record Layout : Type 0 where
  pub line_coding : ℕ
  pub control_line_state : ℕ
  pub last_reported : ℕ
  pub bootloader_soon : ℕ
  pub request_time : ℕ
  pub device_descriptor : ℕ
  pub configuration_descriptor : ℕ
  pub string_descriptors : List ℕ

abbrev pub line_coding_size : ℕ
line_coding_size = 7

abbrev pub store : ℕ → ℕ → Usb → Usb
store at value s = record s { xdata = set s.xdata at value }

-- `usbCallbackInitEndpoints`
unfoldable pub init_endpoints : Layout → Usb → Usb
unfolding init_endpoint_in init_endpoint_out
init_endpoints l s =
    store l.last_reported 0xFF
      (init_endpoint_in 4 64 (init_endpoint_out 4 64 (init_endpoint_in 1 10 s)))

-- `usbCallbackSetupHandler`
unfoldable pub setup_handler : Layout → Usb → Usb
unfolding control_write control_read control_acknowledge
setup_handler l s =
    if not (bit_and (get_or s.setup 0 0) 0x7F == 0x21)
    then s
    else if not (w_index s == 0 || w_index s == 1)
    then s
    else if b_request s == 0x20
    then control_write line_coding_size l.line_coding s
    else if b_request s == 0x21
    then control_read line_coding_size l.line_coding s
    else if b_request s == 0x22
    then control_acknowledge (store l.control_line_state (u8 (w_value s)) s)
    else s

-- dwDTERate
abbrev pub dte_rate : Layout → Usb → ℕ
dte_rate l s =
    get_or s.xdata l.line_coding 0
    + get_or s.xdata (l.line_coding + 1) 0 * 2 ^ 8
    + get_or s.xdata (l.line_coding + 2) 0 * 2 ^ 16
    + get_or s.xdata (l.line_coding + 3) 0 * 2 ^ 24

-- `usbCallbackControlWriteHandler`, where `changed` is the handler that usbComLineCodingChangeHandler
-- points to and `now` what getMs returns
unfoldable pub control_write_handler : Layout → (Usb → Usb) → ℕ → Usb → Usb
control_write_handler l changed now s0 =
    let s = changed s0 in
    if dte_rate l s == 333 && get_or s.xdata l.bootloader_soon 0 == 0
    then store l.request_time (u8 now) (store l.bootloader_soon 1 s)
    else s

-- The library as an application of the USB core; its handler of class descriptors does nothing.
unfoldable pub app : Layout → (Usb → Usb) → ℕ → App
unfolding setup_handler control_write_handler init_endpoints
app l changed now = record {
  device_descriptor = l.device_descriptor;
  configuration_descriptor = l.configuration_descriptor;
  string_descriptors = l.string_descriptors;
  setup_handler = setup_handler l;
  control_write_handler = control_write_handler l changed now;
  class_descriptor_handler = λ s. s;
  init_endpoints = init_endpoints l;
}
