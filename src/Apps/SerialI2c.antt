-- ===== src/Apps/SerialI2c.antt =====
-- apps/serial_i2c/serial_i2c.c: commands from a serial interface to the I2C bus.
pub mod Commands
pub mod Service
pub mod Writing
pub mod Transfers
pub mod Responses
pub mod Reading
pub mod Ports
use wixel_sdk.Base.{
  ℕ, zero, suc, ◌+◌, ◌-◌, ◌^◌, ◌%◌, Bool, true, false, not, ◌&&◌, List, [], ◌∷◌, Option, none, some,
  if◌then◌else◌, ◌==◌, ltb, u8, u16, bit_and, bit_or,
}
use wixel_sdk.Uart.{Uart}
use wixel_sdk.I2c.{I2c, Readings, start, stop, write_byte, read_byte}
use wixel_sdk.Apps.{Serial}

pub data State : Type 0 where
  idle get_addr get_len get_data : State

pub record Bridge : Type 0 where
  pub errors : ℕ
  pub response : ℕ
  pub return_response : Bool
  pub state : State
  pub started : Bool
  pub dir_is_read : Bool
  pub data_length : ℕ
  pub last_cmd : ℕ
  pub i2c : I2c

abbrev pub cmd_start : ℕ
cmd_start = 83

abbrev pub cmd_stop : ℕ
cmd_stop = 80

abbrev pub cmd_get_errors : ℕ
cmd_get_errors = 69

abbrev pub err_i2c_nack_address : ℕ
err_i2c_nack_address = 1

abbrev pub err_i2c_nack_data : ℕ
err_i2c_nack_data = 2

abbrev pub err_i2c_timeout : ℕ
err_i2c_timeout = 4

abbrev pub err_cmd_invalid : ℕ
err_cmd_invalid = 8

abbrev pub err_cmd_timeout : ℕ
err_cmd_timeout = 16

abbrev pub err_uart_overflow : ℕ
err_uart_overflow = 32

abbrev pub err_uart_framing : ℕ
err_uart_framing = 64

abbrev pub flag : ℕ → Bridge → Bridge
flag error b = record b { errors = bit_or b.errors error }

abbrev pub with_i2c : Bridge → Option I2c → Option Bridge
with_i2c b none = none
with_i2c b (some s) = some (record b { i2c = s })

-- The commands of the state IDLE
unfoldable pub command : ℕ → Readings → Bridge → Option Bridge
unfolding start stop
command byte r b =
    if byte == cmd_get_errors
    then some (record b { response = b.errors; return_response = true; errors = 0 })
    else if byte == cmd_start
    then with_i2c (record b { started = true; state = get_addr }) (start r b.i2c)
    else if byte == cmd_stop && b.started
    then with_i2c (record b { started = false }) (stop r b.i2c)
    else some (flag err_cmd_invalid b)

-- What is noted of a byte written: a timeout, or the error `nack_error`.
abbrev pub note_write : ℕ → Bridge → Option (Bool × I2c) → Option Bridge
note_write nack_error b none = none
note_write nack_error b (some (nack, s)) = some (
    if s.timeout_occurred
    then record (flag err_i2c_timeout b) { i2c = record s { timeout_occurred = false } }
    else if nack
    then record (flag nack_error b) { i2c = s }
    else record b { i2c = s })

-- `if (--dataLength == 0) state = IDLE;`
abbrev pub count_down : Bridge → Bridge
count_down b =
    let n = (b.data_length + 255) % 2 ^ 8 in
    record b { data_length = n; state = if n == 0 then idle else b.state }

abbrev pub counted_down : Option Bridge → Option Bridge
counted_down none = none
counted_down (some b) = some (count_down b)

abbrev pub get_address : ℕ → (ℕ → Readings) → Bridge → Option Bridge
get_address byte env b =
    note_write err_i2c_nack_address
      (record b { dir_is_read = bit_and byte 1 == 1; state = get_len }) (write_byte byte env b.i2c)

abbrev pub get_length : ℕ → Bridge → Bridge
get_length byte b = record b { data_length = byte; state = if ltb 0 byte then get_data else idle }

abbrev pub get_byte : ℕ → (ℕ → Readings) → Bridge → Option Bridge
get_byte byte env b =
    if b.dir_is_read
    then some (flag err_cmd_invalid b)
    else counted_down (note_write err_i2c_nack_data b (write_byte byte env b.i2c))

-- `parseCmd`; `env` has the readings of the I2C library's waits.
unfoldable pub parse_in : State → ℕ → (ℕ → Readings) → Bridge → Option Bridge
unfolding command write_byte
parse_in idle byte env b = command byte (env 0) b
parse_in get_addr byte env b = get_address byte env b
parse_in get_len byte env b = some (get_length byte b)
parse_in get_data byte env b = get_byte byte env b

abbrev pub parse_cmd : ℕ → (ℕ → Readings) → Bridge → Option Bridge
parse_cmd byte env b = parse_in b.state byte env b

-- `i2cRead`
abbrev pub note_read : Bridge → Option (ℕ × I2c) → Option Bridge
note_read b none = none
note_read b (some (byte, s)) =
    some
      (record (count_down (
        if s.timeout_occurred
        then record (flag err_i2c_timeout b) {
          response = 0;
          i2c = record s { timeout_occurred = false };
        }
        else record b { response = byte; i2c = s })) { return_response = true })

unfoldable pub i2c_read : (ℕ → Readings) → Bridge → Option Bridge
unfolding read_byte
i2c_read env b = note_read b (read_byte (b.data_length == 1) env b.i2c)

abbrev pub is_get_data : State → Bool
is_get_data get_data = true
is_get_data idle = false
is_get_data get_addr = false
is_get_data get_len = false

abbrev pub beside {ℓ} : {S : Type ℓ} → S → Option Bridge → Option (Bridge × S)
beside s none = none
beside s (some b) = some (b, s)

abbrev pub stamp : ℕ → Option Bridge → Option Bridge
stamp now none = none
stamp now (some b) = some (record b { last_cmd = u16 now })

-- The current command has timed out.
unfoldable pub give_up : Readings → Bridge → Option Bridge
unfolding stop
give_up r b = with_i2c (flag err_cmd_timeout (record b { started = false })) (stop r b.i2c)

-- `i2cService` with no byte to read
abbrev pub no_byte : ℕ → ℕ → Readings → Bridge → Option Bridge
no_byte timeout_ms now r b =
    if b.started && ltb 0 timeout_ms && ltb timeout_ms ((now + 2 ^ 16 - b.last_cmd) % 2 ^ 16)
    then give_up r b
    else some b

module _ {S : Type 0} (port : Serial S) where
  -- The second part of `i2cService`
  abbrev pub reply : Bridge × S → Bridge × S
  reply (b, s) =
      if b.return_response
      then (let (n, s') = port.tx_available s in
          if ltb 0 n
          then (record b { return_response = false }, port.tx_send_byte b.response s')
          else (b, s'))
      else (b, s)

  abbrev pub replied : Option (Bridge × S) → Option (Bridge × S)
  replied none = none
  replied (some r) = some (reply r)

module _ {S : Type 0} (port : Serial S) (cmd_timeout_ms : ℕ) where
  abbrev pub on_rx : ℕ → (ℕ → Readings) → Bridge → Option (ℕ × S) → Option (Bridge × S)
  on_rx now env b none = none
  on_rx now env b (some (n, s)) =
      if ltb 0 n
      then (let (byte, s') = port.rx_receive_byte s in beside s' (stamp now (parse_cmd byte env b)))
      else beside s (no_byte cmd_timeout_ms now (env 0) b)

  -- The first part of `i2cService`; `now` is what getMs returns.
  unfoldable pub work : ℕ → (ℕ → Readings) → Bridge → S → Option (Bridge × S)
  unfolding parse_in i2c_read give_up
  work now env b s =
      if b.return_response
      then some (b, s)
      else if b.dir_is_read && is_get_data b.state
      then beside s (i2c_read env b)
      else on_rx now env b (port.rx_available s)

  -- `i2cService`
  unfoldable pub service : ℕ → (ℕ → Readings) → Bridge → S → Option (Bridge × S)
  unfolding work
  service now env b s = replied port (work now env b s)

-- `uartCheckErrors`
unfoldable pub uart_check_errors : Uart → Bridge → Uart × Bridge
uart_check_errors u b = (
  record u { buffer_full = false; framing_error = false },
  (let b' = if u.buffer_full then flag err_uart_overflow b else b in
      if u.framing_error then flag err_uart_framing b' else b'),
)
