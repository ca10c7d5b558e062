-- ===== src/Apps.antt =====
-- src/apps: programs on top of the libraries. They reach the serial interface that the user has chosen by
-- four functions: pointers in the source, a record here.
pub mod SerialI2c
pub mod Forward
pub mod UsbSerial
use wixel_sdk.Base.{ℕ, Bool, Option, some}
use wixel_sdk.Uart
use wixel_sdk.RadioCom
use wixel_sdk.UsbCom.Port

-- `none` is a call that does not return.
pub record Serial (S : Type 0) : Type 0 where
  pub rx_available : S → Option (ℕ × S)
  pub rx_receive_byte : S → ℕ × S
  pub tx_available : S → ℕ × S
  pub tx_send_byte : ℕ → S → S

abbrev pub uart_serial : Uart.Port → Serial Uart.Uart
uart_serial port = record {
  rx_available = λ u. some (Uart.rx_available u, u);
  rx_receive_byte = Uart.rx_receive_byte;
  tx_available = λ u. (Uart.tx_available u, u);
  tx_send_byte = Uart.tx_send_byte port;
}

abbrev pub radio_serial : Serial RadioCom.RadioCom
radio_serial = record {
  rx_available = RadioCom.rx_available;
  rx_receive_byte = RadioCom.rx_receive_byte;
  tx_available = λ c. (RadioCom.com_tx_available c, c);
  tx_send_byte = RadioCom.tx_send_byte;
}

abbrev pub usb_serial : Serial Port.Com
usb_serial = record {
  rx_available = λ c. some (Port.rx_available c);
  rx_receive_byte = Port.rx_receive_byte;
  tx_available = Port.tx_available;
  tx_send_byte = Port.tx_send_byte;
}
