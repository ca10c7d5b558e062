-- ===== src/UsbCom.antt =====
-- libraries/src/usb_cdc_acm/usb_cdc_acm.c: a virtual serial port on top of the USB core.
pub mod Callbacks
pub mod Port
pub mod Stream
pub mod Runs
pub mod LineCoding
