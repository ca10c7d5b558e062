-- ===== src/Usb/Defs.antt =====
-- libraries/src/usb/usb.c: the variables, the FIFO of endpoint 0 and the calls that set up a control
-- transfer. XDATA is a list of bytes; writes to the FIFO and to USBCS0 are a list, the newest first.
use wixel_sdk.Base.{
  ℕ, zero, suc, ◌+◌, ◌*◌, ◌/◌, ◌%◌, ◌^◌, Bool, true, false, List, [], ◌∷◌, get_or, set, u16,
}

pub data ControlState : Type 0 where
  idle writing reading : ControlState

pub data Write : Type 0 where
  cs0 : ℕ → Write
  fifo : List ℕ → Write

pub record Usb : Type 0 where
  pub setup : List ℕ
  pub device_state : ℕ
  pub control : ControlState
  pub bytes_left : ℕ
  pub pointer : ℕ
  pub suspend_mode : Bool
  pub activity : Bool
  pub xdata : List ℕ
  pub writes : List Write
  pub enabled : Bool
  pub pullup : Bool
  pub usbpow : ℕ
  pub usbcie : ℕ
  pub usbindex : ℕ
  pub usbaddr : ℕ
  pub usbmaxi : ℕ
  pub usbmaxo : ℕ
  pub usbcsih : ℕ
  pub usbcsoh : ℕ

-- enum USB_DEVICE_STATES
abbrev pub detached : ℕ
detached = 0

abbrev pub powered : ℕ
powered = 2

abbrev pub default_state : ℕ
default_state = 4

abbrev pub address : ℕ
address = 8

abbrev pub configured : ℕ
configured = 16

abbrev pub ep0_packet_size : ℕ
ep0_packet_size = 32

-- The fields of usbSetupPacket
abbrev word_at : List ℕ → ℕ → ℕ
word_at bytes i = get_or bytes i 0 + get_or bytes (i + 1) 0 * 2 ^ 8

abbrev pub recipient : Usb → ℕ
recipient s = get_or s.setup 0 0 % 2 ^ 5

abbrev pub request_type : Usb → ℕ
request_type s = get_or s.setup 0 0 / 2 ^ 5 % 2 ^ 2

abbrev pub b_request : Usb → ℕ
b_request s = get_or s.setup 1 0

abbrev pub w_value : Usb → ℕ
w_value s = word_at s.setup 2

abbrev pub w_index : Usb → ℕ
w_index s = word_at s.setup 4

abbrev pub w_length : Usb → ℕ
w_length s = word_at s.setup 6

-- The loops of `usbReadFifo` and `usbWriteFifo`; `bytes` are what the FIFO gives.
abbrev pub copy_in : ℕ → ℕ → List ℕ → List ℕ → List ℕ
copy_in zero buffer bytes xdata = xdata
copy_in (suc count) buffer [] xdata = copy_in count (u16 (buffer + 1)) [] (set xdata buffer 0)
copy_in (suc count) buffer (b ∷ bytes) xdata =
    copy_in count (u16 (buffer + 1)) bytes (set xdata buffer b)

unfoldable pub read_fifo : ℕ → ℕ → List ℕ → Usb → Usb
read_fifo count buffer bytes s = record s {
  xdata = copy_in count buffer bytes s.xdata;
  activity = true;
}

abbrev pub copy_out : ℕ → ℕ → List ℕ → List ℕ
copy_out zero buffer xdata = []
copy_out (suc count) buffer xdata = get_or xdata buffer 0 ∷ copy_out count (u16 (buffer + 1)) xdata

abbrev pub emit : Write → Usb → Usb
emit w s = record s { writes = w ∷ s.writes }

unfoldable pub write_fifo : ℕ → ℕ → Usb → Usb
write_fifo count buffer s = emit (fifo (copy_out count buffer s.xdata)) s

unfoldable pub basic_usb_init : Usb → Usb
basic_usb_init s = record s { suspend_mode = false; usbpow = 1; usbcie = 0b0111 }

-- `usbControlRead`, `usbControlWrite`, `usbControlAcknowledge` and `usbControlStall`
unfoldable pub control_read : ℕ → ℕ → Usb → Usb
control_read count source s = record s { control = reading; bytes_left = count; pointer = source }

unfoldable pub control_write : ℕ → ℕ → Usb → Usb
control_write count source s = record s { control = writing; bytes_left = count; pointer = source }

unfoldable pub control_acknowledge : Usb → Usb
control_acknowledge s = record s { control = writing; bytes_left = 0 }

unfoldable pub control_stall : Usb → Usb
control_stall s = record s { control = idle }

unfoldable pub init_endpoint_in : ℕ → ℕ → Usb → Usb
init_endpoint_in number max_packet_size s = record s {
  usbindex = number;
  usbmaxi = (max_packet_size + 7) / 8;
  usbcsih = 1;
}

unfoldable pub init_endpoint_out : ℕ → ℕ → Usb → Usb
init_endpoint_out number max_packet_size s = record s {
  usbindex = number;
  usbmaxo = (max_packet_size + 7) / 8;
  usbcsoh = 1;
}
