-- ===== src/Usb.antt =====
-- libraries/src/usb/usb.c: the USB core. Its parts are modules of their own.
pub mod Defs
pub mod Requests
pub mod Descriptors
pub mod Poll
pub mod Sleep
pub mod Control
