-- ===== src/Examples/SerialI2c.antt =====
-- The commands from a serial interface to I2C at concrete inputs.
use wixel_sdk.Base.{
  ℕ, ◌+◌, ◌%◌, ◌<◌, ◌≡◌, ◌≢◌, refl, Bool, true, false, List, [], ◌∷◌, ◌++◌, Option, none, some,
  arith, ◌⊎◌, ◌==◌, ◌||◌, ◌&&◌, length,
}
use wixel_sdk.I2c.{
  I2c, Readings, clear_scl, clear_sda, wait_for_high_scl, write_byte, write_bits, write_bit,
  read_byte, read_bits, read_bit, stop,
}
use wixel_sdk.I2c.Bus.{start_condition, low, bus}
use wixel_sdk.Apps.{Serial, uart_serial, usb_serial}
use wixel_sdk.Apps.SerialI2c.{
  Bridge, State, idle, get_addr, get_len, get_data, cmd_start, parse_cmd, parse_in, i2c_read,
  give_up, work, service,
}
use wixel_sdk.Apps.SerialI2c.Commands.{IsValid}
use wixel_sdk.Apps.SerialI2c.Service.{service-IsValid, service-stale_command}
use wixel_sdk.Apps.SerialI2c.Writing.{frames, Acknowledges}
use wixel_sdk.Apps.SerialI2c.Transfers.{parse_all, write_command_lem}
use wixel_sdk.Apps.SerialI2c.Responses.{read_frames, read_sda}
use wixel_sdk.Apps.SerialI2c.Reading.{HasRoom, services, read_command_lem}
use wixel_sdk.Apps.SerialI2c.Ports.{uart_sends, usb_sends}
use wixel_sdk.Uart.{Uart, usart0, tx_available}
use wixel_sdk.Uart.Laws.{tx_contents}
use wixel_sdk.UsbCom.Port
use wixel_sdk.Examples.UsbCom.{com_state, com_state-IsValid}
use wixel_sdk.Examples.Serial.{port_state, port_state-IsValid}

-- A serial interface with the bytes to read and the bytes sent.
abbrev Line : Type 0
Line = List ℕ × List ℕ

abbrev first : List ℕ → ℕ
first [] = 0
first (x ∷ xs) = x % 256

abbrev rest : List ℕ → List ℕ
rest [] = []
rest (x ∷ xs) = xs

abbrev line : Serial Line
line = record {
  rx_available = λ s. some (length s.0, s);
  rx_receive_byte = λ s. (first s.0, (rest s.0, s.1));
  tx_available = λ s. (1, s);
  tx_send_byte = λ byte s. (s.0, s.1 ++ byte ∷ []);
}

first-byte : (xs : List ℕ) → first xs < 256
first-byte [] = omega arith
first-byte (x ∷ xs) = omega arith

-- A bus after a start condition
abbrev started_bus : I2c
started_bus = record {
  half_period_us = 5;
  timeout = 10;
  started = true;
  timeout_occurred = false;
  internal_timeout_occurred = false;
  calls = clear_scl ∷ clear_sda ∷ [];
}

abbrev quick : Bool → Readings
quick sda = record { start = 100; polls = (true, 100) ∷ []; sda = sda }

abbrev in_state : State → Bool → ℕ → Bridge
in_state st dir n = record {
  errors = 0;
  response = 0;
  return_response = false;
  state = st;
  started = true;
  dir_is_read = dir;
  data_length = n;
  last_cmd = 100;
  i2c = started_bus;
}

abbrev bridge_of : Option Bridge → Bridge
bridge_of none = in_state idle false 0
bridge_of (some b) = b

abbrev served : Option (Bridge × Line) → Bridge × Line
served none = (in_state idle false 0, ([], []))
served (some r) = r

-- A command byte is read: the number of data bytes, 0x53.
abbrev after_byte : Bridge × Line
after_byte =
    served (service line 500 1000 (λ i. quick false) (in_state get_len false 0) (0x53 ∷ [], []))

service-IsValid_example : IsValid after_byte.0
unfolding service work parse_in
service-IsValid_example =
    service-IsValid line 500 1000 (λ i. quick false) (in_state get_len false 0) after_byte.0
      (0x53 ∷ [], []) after_byte.1 (λ s. first-byte s.0)
      (record { errors = omega arith; response = omega arith; length = omega arith; counts = refl })
      refl

-- Half a second passes before the length arrives.
abbrev late : Bridge × Line
late = served (service line 500 1000 (λ i. quick false) (in_state get_len false 0) ([], []))

abbrev misread : Bridge
misread = bridge_of (parse_cmd cmd_start (λ i. quick false) late.0)

service-stale_command_example :
    (late.0.state ≡ get_len) × (late.0.started ≡ false) × (misread.started ≡ false)
unfolding service work parse_in give_up stop wait_for_high_scl
service-stale_command_example =
    service-stale_command line 500 1000 (λ i. quick false) (λ i. quick false)
      (in_state get_len false 0) late.0 misread ([], []) ([], []) late.1 (λ e. ground (arith, e))
      refl refl refl refl (omega arith) (omega arith) refl refl

abbrev acknowledging : ℕ → ℕ → Readings
acknowledging i j = quick false

abbrev written : Bridge
written =
    bridge_of (parse_all (0x20 ∷ 2 ∷ 0xA5 ∷ 0x01 ∷ []) 0 acknowledging (in_state get_addr false 0))

write_command_lem_example :
    (written.state ≡ idle)
    × ((written.errors ≢ 0)
        ⊎ ((((acknowledging 0 8).sda ≡ false) × Acknowledges (0xA5 ∷ 0x01 ∷ []) 2 acknowledging)
            × (bus written.i2c.calls
                ≡ low true (frames (0x20 ∷ 0xA5 ∷ 0x01 ∷ []) (start_condition ∷ [])))))
unfolding bus parse_all parse_in write_byte write_bits write_bit read_bit wait_for_high_scl
write_command_lem_example =
    write_command_lem 0x20 (0xA5 ∷ 0x01 ∷ []) acknowledging false (start_condition ∷ [])
      (in_state get_addr false 0) written (omega arith) refl (omega arith, (omega arith, tt))
      (omega arith) refl (omega arith) refl refl

-- The slave shows 0x81, then 0x01.
abbrev showing : ℕ → ℕ → Readings
showing i j = quick ((i == 0 && j == 0) || j == 7)

abbrev served_by_uart : Option (Bridge × Uart) → Bridge × Uart
served_by_uart none = (in_state idle false 0, port_state)
served_by_uart (some r) = r

abbrev read : Bridge × Uart
read = served_by_uart (
    services (uart_serial usart0) 500 (λ i. 1000) showing 2 0 (in_state get_data true 2) port_state)

read_command_lem_example :
    (read.0.state ≡ idle)
    × (length (tx_contents read.1) ≡ length (tx_contents port_state) + 2)
    × ((read.0.errors ≢ 0)
        ⊎ ((tx_contents read.1 ≡ tx_contents port_state ++ 0x81 ∷ 0x01 ∷ [])
            × (bus read.0.i2c.calls
                ≡ low
                    (read_sda (0x81 ∷ 0x01 ∷ []) false)
                    (read_frames (0x81 ∷ 0x01 ∷ []) (start_condition ∷ [])))))
unfolding bus services service work i2c_read read_byte read_bits read_bit write_bit
    wait_for_high_scl tx_available
read_command_lem_example =
    read_command_lem (uart_serial usart0) (uart_sends usart0) 500 (0x81 ∷ 0x01 ∷ []) (λ i. 1000)
      showing false (start_condition ∷ []) (in_state get_data true 2) read.0 port_state read.1
      (omega arith, (omega arith, tt)) (omega arith) (refl, (refl, tt))
      (record { state = refl; length = refl; reads = refl; errors = omega arith }) refl refl
      (port_state-IsValid, omega arith) refl

-- The port to the host, too, has room for the responses to a command.
host_has_room : HasRoom usb_serial usb_sends 500 2 com_state
unfolding Port.tx_available
host_has_room = (record { port = com_state-IsValid; packets = tt }, omega arith)
