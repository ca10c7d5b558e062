-- ===== src/Apps/UsbSerial.antt =====
-- apps/usb_serial/usb_serial.c: the bridge between the host and the serial port.
pub mod Ports
pub mod Both
use wixel_sdk.Base.{
  ℕ, suc, ◌+◌, ◌*◌, Bool, true, false, not, Option, none, some, if◌then◌else◌, get_or, bit_and,
  bit_or, truth, length,
}
use wixel_sdk.Uart
use wixel_sdk.UsbCom.Callbacks.{Layout, dte_rate}
use wixel_sdk.UsbCom.Port.{Com, rx_control_signals, tx_control_signals}
use wixel_sdk.UsbCom.Stream.{joined}
use wixel_sdk.Apps.{uart_serial, usb_serial}
use wixel_sdk.Apps.Forward.{forward}

-- The pins for the control signals: two outputs, and the direction register of port 1.
pub record Lines : Type 0 where
  pub p1_0 : Bool
  pub p1_1 : Bool
  pub p1dir : ℕ

abbrev pub Bridge : Type 0
Bridge = Uart.Uart × Com

abbrev pub swapped : Option (Com × Uart.Uart) → Option Bridge
swapped none = none
swapped (some (c, u)) = some (u, c)

-- From the host to the serial port: as many rounds as bytes wait, and one that finds none.
unfoldable pub to_uart : Bridge → Option Bridge
unfolding forward
to_uart (u, c) =
    swapped (forward usb_serial (uart_serial Uart.usart1) (suc (length (joined c.out_packets))) c u)

-- From the serial port to the host: its buffer holds fewer bytes than this.
unfoldable pub to_usb : Bridge → Option Bridge
unfolding forward
to_usb (u, c) = forward (uart_serial Uart.usart1) usb_serial Uart.buffer_size u c

-- ACM_CONTROL_LINE_DTR and ACM_CONTROL_LINE_RTS, on pins that are low when they are set
unfoldable pub put_lines : Layout → Com → Lines → Lines
put_lines l c p =
    let signals = rx_control_signals l c in
    record p {
      p1_0 = not (truth (bit_and signals 1));
      p1_1 = not (truth (bit_and signals 2));
      p1dir = bit_or p.p1dir 3;
    }

-- ACM_SERIAL_STATE_TX_CARRIER and ACM_SERIAL_STATE_RX_CARRIER of the two inputs
abbrev pub signals_of : Bool → Bool → ℕ
signals_of p1_2 p1_3 = (if p1_2 then 0 else 2) + (if p1_3 then 0 else 1)

abbrev pub then_usb : Option Bridge → Option Bridge
then_usb none = none
then_usb (some r) = to_usb r

abbrev pub with_lines : Layout → Bool → Bool → Lines → Option Bridge → Option (Bridge × Lines)
with_lines l p1_2 p1_3 p none = none
with_lines l p1_2 p1_3 p (some (u, c)) =
    some ((u, tx_control_signals (signals_of p1_2 p1_3) c), put_lines l c p)

-- `usbToUartService`; the inputs P1_2 and P1_3 are arguments.
unfoldable pub service : Layout → Bool → Bool → Bridge → Lines → Option (Bridge × Lines)
unfolding to_uart to_usb put_lines
service l p1_2 p1_3 r p = with_lines l p1_2 p1_3 p (then_usb (to_uart r))

-- `lineCodingChanged`: the rate, the parity and the stop bits of the line coding
unfoldable pub line_coding_changed : Layout → Com → Uart.Uart → Uart.Uart
line_coding_changed l c u = Uart.set_stop_bits (get_or c.usb.xdata (l.line_coding + 4) 0) (
    Uart.set_parity (get_or c.usb.xdata (l.line_coding + 5) 0)
      (Uart.set_baud_rate (dte_rate l c.usb) u))
