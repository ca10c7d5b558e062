-- ===== src/Usb/Poll.antt =====
-- libraries/src/usb/usb.c: usbPoll. What the registers and the FIFO show is a record of inputs.
use wixel_sdk.Base.{
  ℕ, ◌+◌, ◌-◌, Bool, true, false, ◌&&◌, not, List, if◌then◌else◌, ◌==◌, ltb, u16, truth, bit_and,
  take,
}
use wixel_sdk.Usb.Defs.{
  Usb, ControlState, idle, writing, reading, cs0, detached, powered, default_state, ep0_packet_size,
  request_type, read_fifo, write_fifo, emit, basic_usb_init,
}
use wixel_sdk.Usb.Requests.{App, standard_device_request}

pub record Registers : Type 0 where
  pub power : Bool
  pub vin : Bool
  pub usbcif : ℕ
  pub usbiif : ℕ
  pub usbcs0 : ℕ
  pub usbcnt0 : ℕ
  pub received : List ℕ

abbrev pub flag : ℕ → ℕ → Bool
flag r mask = truth (bit_and r mask)

abbrev pub is_write : ControlState → Bool
is_write writing = true
is_write c = false

abbrev pub is_read : ControlState → Bool
is_read reading = true
is_read c = false

-- The host has sent all the data that a control write expects: it was invalid if the application has
-- ended the transfer, else valid.
abbrev pub acknowledge_data : ControlState → Usb → Usb
acknowledge_data idle s = emit (cs0 0x68) s
acknowledge_data c s = record (emit (cs0 0x48) s) { control = idle }

abbrev pub valid_data : App → Usb → Usb
valid_data app s = record (if request_type s == 0 then s else app.control_write_handler s) {
  usbindex = 0;
}

abbrev pub write_done : App → Usb → Usb
write_done app s = let s' = valid_data app s in acknowledge_data s'.control s'

-- A data packet of a control write
unfoldable pub take_data : Registers → Usb → Usb
unfolding read_fifo
take_data r s =
    let n = if ltb s.bytes_left r.usbcnt0 then s.bytes_left else r.usbcnt0 in
    record (read_fifo n s.pointer r.received s) {
      pointer = u16 (s.pointer + n);
      bytes_left = s.bytes_left - n;
    }

unfoldable pub data_packet : App → Registers → Usb → Usb
unfolding take_data
data_packet app r s =
    let s' = take_data r s in if truth s'.bytes_left then emit (cs0 0x40) s' else write_done app s'

-- Prepare for the first transaction after the SETUP packet.
abbrev pub prepare : ControlState → Usb → Usb
prepare idle s = emit (cs0 0x60) s
prepare writing s =
    if truth s.bytes_left then emit (cs0 0x40) s else record (emit (cs0 0x4A) s) { control = idle }
prepare reading s = s

-- A SETUP packet, and the answer of the library or of the application
unfoldable pub take_setup : ℕ → App → Registers → Usb → Usb
unfolding standard_device_request
take_setup response app r s0 =
    let s = record s0 { setup = take 8 r.received; activity = true; control = idle } in
    record (if request_type s == 0
      then standard_device_request response r.vin app s
      else app.setup_handler s) { usbindex = 0 }

unfoldable pub setup_packet : ℕ → App → Registers → Usb → Usb
unfolding take_setup
setup_packet response app r s = let s' = take_setup response app r s in prepare s'.control s'

-- OUTPKT_RDY: a packet has been received on endpoint 0.
unfoldable pub out_packet : ℕ → App → Registers → Usb → Usb
unfolding data_packet setup_packet
out_packet response app r s =
    if is_write s.control
    then data_packet app r s
    else if r.usbcnt0 == 8
    then setup_packet response app r s
    else emit (cs0 0x40) s

-- The next packet of a control read: the last one, which might be empty, or a full one
unfoldable pub last_packet : Usb → Usb
unfolding write_fifo
last_packet s = record (emit (cs0 10) (write_fifo s.bytes_left s.pointer s)) {
  control = idle;
  pointer = u16 (s.pointer + s.bytes_left);
  bytes_left = 0;
}

unfoldable pub full_packet : Usb → Usb
unfolding write_fifo
full_packet s = record (emit (cs0 2) (write_fifo ep0_packet_size s.pointer s)) {
  pointer = u16 (s.pointer + ep0_packet_size);
  bytes_left = s.bytes_left - ep0_packet_size;
}

unfoldable pub in_packet : Usb → Usb
unfolding last_packet full_packet
in_packet s = if ltb s.bytes_left ep0_packet_size then last_packet s else full_packet s

-- EP0IF
unfoldable pub endpoint0 : ℕ → App → Registers → Usb → Usb
unfolding out_packet in_packet
endpoint0 response app r s0 =
    let s1 = record s0 { usbindex = 0; activity = true } in
    let s2 = if flag r.usbcs0 16 then record (emit (cs0 0x80) s1) { control = idle } else s1 in
    let s3 = if flag r.usbcs0 4 then record (emit (cs0 0x00) s2) { control = idle } else s2 in
    let s4 = if flag r.usbcs0 1 then out_packet response app r s3 else s3 in
    if not (flag r.usbcs0 2) && is_read s4.control then in_packet s4 else s4

abbrev pub unplugged : Usb → Usb
unplugged s = record s {
  enabled = false;
  pullup = false;
  device_state = detached;
  suspend_mode = false;
}

abbrev pub plugged : Usb → Usb
plugged s =
    if s.device_state == detached
    then basic_usb_init (record s { pullup = true; enabled = true; device_state = powered })
    else s

-- SUSPENDIF, RSTIF and RESUMEIF
abbrev pub bus_events : Registers → Usb → Usb
bus_events r s =
    let s1 = if flag r.usbcif 1 then record s { suspend_mode = true } else s in
    let s2 =
      if flag r.usbcif 4
      then basic_usb_init (record s1 { device_state = default_state; control = idle })
      else s1 in
    if flag r.usbcif 2 then record s2 { suspend_mode = false } else s2

-- `usbPoll`
unfoldable pub poll : ℕ → App → Registers → Usb → Usb
unfolding endpoint0 basic_usb_init
poll response app r s =
    if r.power
    then (let s' = bus_events r (plugged s) in
        if flag r.usbiif 1 then endpoint0 response app r s' else s')
    else unplugged s
