-- ===== src/Examples/UsbSerial.antt =====
-- The bridge between the host and the serial port at concrete inputs.
use wixel_sdk.Base.{true, false, [], ◌∷◌, arith}
use wixel_sdk.Usb.Defs.{configured}
use wixel_sdk.UsbCom.Port.{Com}
use wixel_sdk.Apps.Forward.{Returns}
use wixel_sdk.Apps.UsbSerial.{Lines, service}
use wixel_sdk.Apps.UsbSerial.Ports
use wixel_sdk.Apps.UsbSerial.Ports.{uart_streams, usb_streams}
use wixel_sdk.Apps.UsbSerial.Both.{Bridged, service-Bridged}
use wixel_sdk.Examples.Serial.{port_state, port_state-IsValid}
use wixel_sdk.Examples.UsbCom.{com_state, com_state-IsValid, layout}

-- The host has sent two packets.
abbrev host_port : Com
host_port = record com_state {
  usb = record (com_state.usb) { device_state = configured };
  out_packets = (1 ∷ 2 ∷ []) ∷ (3 ∷ []) ∷ [];
}

host_port-IsValid : Ports.IsValid host_port
host_port-IsValid = record {
  port = record {
    counted = com_state-IsValid.counted;
    short = com_state-IsValid.short;
    double = com_state-IsValid.double;
    full = com_state-IsValid.full;
    sizes = com_state-IsValid.sizes;
    soon = com_state-IsValid.soon;
  };
  packets = (omega arith, (omega arith, tt));
}

abbrev lines : Lines
lines = record { p1_0 = false; p1_1 = false; p1dir = 0 }

service-Bridged_example :
    Returns
      (Bridged (port_state, host_port))
      (service layout true false (port_state, host_port) lines)
service-Bridged_example =
    service-Bridged layout true false port_state host_port lines port_state-IsValid
      host_port-IsValid
