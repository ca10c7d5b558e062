-- ===== src/Examples/Buses.antt =====
-- SPI, the pins, the motors and I2C at concrete inputs.
use wixel_sdk.Base.{
  ℕ, ◌≡◌, refl, Bool, true, false, [], ◌∷◌, ◌++◌, Option, none, some, arith, ◌⊎◌, inr, ◌==◌, ◌||◌,
}
use wixel_sdk.Spi.{Spi, transfer, busy}
use wixel_sdk.Spi.Transfers.{written, exchange, slice, overwrite, transfer-exchange}
use wixel_sdk.Gpio.{Gpio, Port, set_digital_output}
use wixel_sdk.Gpio.Pins.{IsBytes, IsValid, drives, pin, becomes, pin-set_digital_output}
use wixel_sdk.Motors.{Motors, forward, reverse, left, right, stop_motors, brake}
use wixel_sdk.Motors.Drive.{ahead, back, coast, wheels, wheels_move}
use wixel_sdk.I2c.{
  I2c, read_scl, Readings, wait_for_high_scl, start, write_byte, read_byte, write_bits, write_bit,
  read_bits, read_bit, clear_scl, clear_sda,
}
use wixel_sdk.I2c.Bus.{At, Fails, clocked, start_condition, low, bus}
use wixel_sdk.I2c.Bytes.{Closes, clock_out, bits_of, write_byte-Closes}
use wixel_sdk.I2c.Reading.{released, read_byte-shown}
use wixel_sdk.I2c.Errors.{wait_for_high_scl_lem, start-after_timeout}

abbrev spi_state : Spi
spi_state = record {
  tx_pointer = 0;
  rx_pointer = 0;
  bytes_left = 0;
  xdata = 1 ∷ 2 ∷ 3 ∷ 0 ∷ 0 ∷ 0 ∷ [];
  urx_if = false;
  urx_ie = false;
  ea = true;
  ungcr = 0;
  unbaud = 0;
  p2dir = 0;
  p2sel = 0;
  percfg = 0;
  p0sel = 0;
  p1sel = 0;
  ip0 = 0;
  ip1 = 0;
}

abbrev started : Option ℕ × Spi
started = transfer 0 3 3 spi_state

transfer-exchange_example :
    let (rest, ended) = exchange (7 ∷ 8 ∷ 9 ∷ []) started.1 in
    (written started.0 ++ rest ≡ slice spi_state.xdata 0 3)
    × (ended.xdata ≡ overwrite spi_state.xdata 3 (7 ∷ 8 ∷ 9 ∷ []))
    × (busy ended ≡ false)
unfolding busy
transfer-exchange_example =
    transfer-exchange 0 3 (7 ∷ 8 ∷ 9 ∷ []) spi_state refl (omega arith) (omega arith) (omega arith)
      (inr (omega arith))

abbrev inputs_everywhere : Port
inputs_everywhere = record { latch = 255; dir = 0; inp = 0 }

abbrev gpio_state : Gpio
gpio_state = record { p0 = inputs_everywhere; p1 = inputs_everywhere; p2 = inputs_everywhere }

inputs_everywhere-IsBytes : IsBytes inputs_everywhere
inputs_everywhere-IsBytes = record { latch = omega arith; dir = omega arith; inp = omega arith }

gpio_state-IsValid : IsValid gpio_state
gpio_state-IsValid = record {
  p0 = inputs_everywhere-IsBytes;
  p1 = inputs_everywhere-IsBytes;
  p2 = inputs_everywhere-IsBytes;
}

pin-set_digital_output_example :
    pin 15 (set_digital_output 15 false gpio_state) ≡ becomes (drives false) (pin 15 gpio_state)
pin-set_digital_output_example = pin-set_digital_output 15 15 false gpio_state gpio_state-IsValid

abbrev motors_state : Motors
motors_state = record { gpio = gpio_state; t3cc0 = 0; t3cc1 = 0 }

wheels_move_example :
    (wheels (forward motors_state) ≡ (some ahead, some ahead))
    × (wheels (reverse motors_state) ≡ (some back, some back))
    × (wheels (left motors_state) ≡ (some back, some ahead))
    × (wheels (right motors_state) ≡ (some ahead, some back))
    × (wheels (stop_motors motors_state) ≡ (some coast, some coast))
    × (wheels (brake motors_state) ≡ (some coast, some coast))
wheels_move_example = wheels_move motors_state gpio_state-IsValid

-- A master in the middle of a transfer, and a clock that the slave holds low for one reading.
abbrev i2c_state : I2c
i2c_state = record {
  half_period_us = 5;
  timeout = 10;
  started = true;
  timeout_occurred = false;
  internal_timeout_occurred = false;
  calls = clear_scl ∷ clear_sda ∷ [];
}

abbrev readings : Bool → Readings
readings sda = record { start = 100; polls = (false, 105) ∷ (true, 106) ∷ []; sda = sda }

-- A slave that acknowledges, and one that shows 0x81.
abbrev acknowledging : ℕ → Readings
acknowledging i = readings false

abbrev showing : ℕ → Readings
showing i = readings (i == 0 || i == 7)

abbrev result {ℓ} : {A : Type ℓ} → A → Option (A × I2c) → A × I2c
result a none = (a, i2c_state)
result a (some r) = r

abbrev written_byte : Bool × I2c
written_byte = result false (write_byte 0xA5 acknowledging i2c_state)

write_byte-Closes_example :
    Closes false true
      (clocked true ∷ clock_out (bits_of 0xA5) (bus i2c_state.calls).signals)
      written_byte
unfolding bus write_byte write_bits write_bit read_bit wait_for_high_scl
write_byte-Closes_example =
    write_byte-Closes 0xA5 acknowledging false (start_condition ∷ []) i2c_state (omega arith) refl
      refl

abbrev read_result : ℕ × I2c
read_result = result 0 (read_byte true showing i2c_state)

read_byte-shown_example :
    ((read_result.0 ≡ 0x81)
      × At true
          (low true (clocked true ∷ clock_out (released 8) (start_condition ∷ [])))
          read_result.1)
    ⊎ ((read_result.0 ≡ 0) × Fails read_result.1)
unfolding bus read_byte read_bits read_bit write_bit wait_for_high_scl
read_byte-shown_example =
    read_byte-shown 0x81 true showing false (start_condition ∷ []) i2c_state (omega arith) refl refl
      refl

-- The clock's count wraps around while the slave holds the clock low for longer than the timeout; a reading
-- after that finds the clock high, and is not made.
wait_for_high_scl_lem_example :
    wait_for_high_scl 10 4294967290
      ((false, 4294967295) ∷ (false, 4) ∷ (false, 5) ∷ (true, 6) ∷ [])
      i2c_state
    ≡ some (record i2c_state {
      internal_timeout_occurred = true;
      timeout_occurred = true;
      started = false;
      calls = read_scl false ∷ read_scl false ∷ read_scl false ∷ i2c_state.calls;
    })
wait_for_high_scl_lem_example =
    wait_for_high_scl_lem 10 4294967290 ((false, 5) ∷ (false, 10) ∷ []) ((true, 12) ∷ []) false 11
      i2c_state (omega arith)
      ((refl, omega arith, omega arith), ((refl, omega arith, omega arith), tt)) (omega arith)
      (inr (omega arith))

abbrev timed_out : I2c
timed_out = record i2c_state {
  started = false;
  timeout_occurred = true;
  internal_timeout_occurred = true;
}

abbrev restarted : Option I2c
restarted = start (record { start = 200; polls = (true, 200) ∷ []; sda = true }) timed_out

abbrev state_of : Option I2c → I2c
state_of none = i2c_state
state_of (some s) = s

start-after_timeout_example :
    ((state_of restarted).internal_timeout_occurred ≡ true)
    × ((state_of restarted).started ≡ false)
    × ((bus (state_of restarted).calls).sda ≡ (bus timed_out.calls).sda)
unfolding start wait_for_high_scl
start-after_timeout_example =
    start-after_timeout (record { start = 200; polls = (true, 200) ∷ []; sda = true }) timed_out
      refl refl refl
