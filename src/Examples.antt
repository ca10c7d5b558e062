-- ===== src/Examples.antt =====
-- The theorems at concrete inputs.
mod Serial
mod Tuples
mod Radio
mod Stations
mod Buses
mod Usb
mod UsbCom
mod SerialI2c
mod UsbSerial
mod UsbHid
