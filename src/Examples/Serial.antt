-- ===== src/Examples/Serial.antt =====
-- The serial port, the baud rate, packets and servos at concrete inputs.
use wixel_sdk.Base.{
  ℕ, ◌-◌, ◌*◌, ◌/◌, ◌%◌, ◌^◌, ◌<◌, ◌≤◌, ◌≡◌, inl, true, false, List, [], ◌∷◌, ◌++◌, arith,
  length-replicate, replicate,
}
use wixel_sdk.Baud.{baud_parts, baud_parts_fit}
use wixel_sdk.Uart.{Uart, usart0, tx_available, urx_isr}
use wixel_sdk.Uart.Laws.{
  IsValid, TxCall, sends, transmits, tx_run, Fits, tx_contents, rx_view, receive, sent_bytes,
  tx_run_lem, urx_isr_lem,
}
use wixel_sdk.Packet.{read_id, read_y, read_x, read_r}
use wixel_sdk.Packet.Fields.{value, readers_lem}
use wixel_sdk.Servo.{ServoData}
use wixel_sdk.Servo.Motion.{IsMoving, distance, periods, periods_lem, arrives}

baud_parts_fit_example :
    (256 ≤ (baud_parts 115200).0) × ((baud_parts 115200).0 ≤ 511) × ((baud_parts 115200).1 < 32)
baud_parts_fit_example = baud_parts_fit 115200 (omega arith) (omega arith)

-- A port whose indices have come near the end of the buffers, with two bytes received.
abbrev pub port_state : Uart
port_state = record {
  tx_buffer = replicate 256 7;
  tx_main = 255;
  tx_int = 254;
  rx_buffer = replicate 256 9;
  rx_main = 255;
  rx_int = 1;
  parity_error = false;
  framing_error = false;
  buffer_full = false;
  utx_if = false;
  urx_if = true;
  urx_ie = true;
  ea = true;
  ien2 = 0;
  uncsr = 0xc0;
  ungcr = 0;
  unucr = 0x82;
  unbaud = 0;
  p2dir = 0;
  p2sel = 0;
  percfg = 0;
  p0sel = 8;
  p1sel = 0;
  ip0 = 0;
  ip1 = 0;
}

pub port_state-IsValid : IsValid port_state
port_state-IsValid = record {
  tx_size = length-replicate {A = ℕ} 256 7;
  rx_size = length-replicate {A = ℕ} 256 9;
  tx_main_in = omega arith;
  tx_int_in = omega arith;
  rx_main_in = omega arith;
  rx_int_in = omega arith;
}

abbrev calls : List TxCall
calls = sends (1 ∷ 2 ∷ []) ∷ transmits ∷ transmits ∷ []

tx_run_lem_example :
    ((tx_run usart0 calls port_state).0 ++ tx_contents (tx_run usart0 calls port_state).1
      ≡ tx_contents port_state ++ sent_bytes calls)
    × IsValid (tx_run usart0 calls port_state).1
unfolding tx_available Fits
tx_run_lem_example = tx_run_lem usart0 calls port_state port_state-IsValid (omega arith, tt)

urx_isr_lem_example :
    (rx_view (urx_isr 0 65 port_state) ≡ receive 0 65 (rx_view port_state))
    × IsValid (urx_isr 0 65 port_state)
urx_isr_lem_example = urx_isr_lem 0 65 port_state port_state-IsValid

readers_lem_example :
    (read_id (253 ∷ 200 ∷ 17 ∷ 129 ∷ 255 ∷ []) ≡ value 253 200 17 129 255 / 2 ^ 29 % 2 ^ 5)
    × (read_y true (253 ∷ 200 ∷ 17 ∷ 129 ∷ 255 ∷ []) ≡ value 253 200 17 129 255 / 2 ^ 19 % 2 ^ 10)
    × (read_x true (253 ∷ 200 ∷ 17 ∷ 129 ∷ 255 ∷ []) ≡ value 253 200 17 129 255 / 2 ^ 9 % 2 ^ 10)
    × (read_r true (253 ∷ 200 ∷ 17 ∷ 129 ∷ 255 ∷ []) ≡ value 253 200 17 129 255 % 2 ^ 9)
readers_lem_example =
    readers_lem true 253 200 17 129 255
      (omega arith, omega arith, omega arith, omega arith, omega arith)

abbrev servo_state : ServoData
servo_state = record { target = 48000; position = 24000; position_reg = 41536; speed = 1000 }

servo_state-IsMoving : IsMoving servo_state
servo_state-IsMoving = record {
  limited = omega arith;
  placed = inl (omega arith);
  position_word = omega arith;
  target_word = omega arith;
}

periods_lem_example : distance (periods 5 servo_state) ≡ distance servo_state - 5 * 1000
periods_lem_example = periods_lem 5 servo_state servo_state-IsMoving

arrives_example : (periods 24 servo_state).position ≡ 48000
arrives_example = arrives 24 servo_state servo_state-IsMoving (omega arith)
