-- ===== src/I2c.antt =====
-- libraries/src/i2c/i2c.c: the software I2C master. What it asks of the pins and of the timer is a list
-- of calls, the newest first; what the pins and the clock read while it waits are inputs.
pub mod Bus
pub mod Bytes
pub mod Reading
pub mod Errors
use wixel_sdk.Base.{
  ℕ, zero, suc, ◌+◌, ◌-◌, ◌*◌, ◌/◌, ◌%◌, ◌^◌, Bool, true, false, List, [], ◌∷◌, Option, none, some,
  if◌then◌else◌, ltb, u8, u16, truth, bit_and, bit_or,
}

-- A call of gpio.c for one of the two pins, with what an input read, or of delayMicroseconds.
pub data Call : Type 0 where
  read_scl : Bool → Call
  read_sda clear_scl clear_sda : Call
  delay : ℕ → Call

pub record I2c : Type 0 where
  pub half_period_us : ℕ
  pub timeout : ℕ
  pub started : Bool
  pub timeout_occurred : Bool
  pub internal_timeout_occurred : Bool
  pub calls : List Call

-- What one wait for the clock line finds: the time at its start, then the line and the time at each
-- reading; and the data line once the clock is high.
pub record Readings : Type 0 where
  pub start : ℕ
  pub polls : List (Bool × ℕ)
  pub sda : Bool

unfoldable pub set_frequency : ℕ → I2c → I2c
set_frequency freq_khz s =
    let freq = if ltb freq_khz 2 then 2 else freq_khz in
    record s { half_period_us = u16 (500 + freq - 1) / freq }

unfoldable pub set_timeout : ℕ → I2c → I2c
set_timeout timeout_ms s = record s { timeout = timeout_ms }

abbrev pub call : Call → I2c → I2c
call c s = record s { calls = c ∷ s.calls }

abbrev pub half_period : I2c → I2c
half_period s = call (delay s.half_period_us) s

abbrev pub times_out : I2c → I2c
times_out s = record s {
  internal_timeout_occurred = true;
  timeout_occurred = true;
  started = false;
}

-- `i2cWaitForHighScl`: `none` if the readings end before the wait does.
unfoldable pub wait_for_high_scl : ℕ → ℕ → List (Bool × ℕ) → I2c → Option I2c
wait_for_high_scl timeout_ms time [] s = none
wait_for_high_scl timeout_ms time ((high, now) ∷ polls) s =
    let s' = call (read_scl high) s in
    let rest = wait_for_high_scl timeout_ms time polls s' in
    if high
    then some s'
    else if ltb timeout_ms ((now + 2 ^ 32 - time) % 2 ^ 32)
    then some (times_out s')
    else rest

-- `if (internalTimeoutOccurred) return ...;` after a call
abbrev pub unless_timed_out {ℓ} :
    {R : Type ℓ} → (I2c → R) → (I2c → Option R) → Option I2c → Option R
unless_timed_out early more none = none
unless_timed_out early more (some s) =
    if s.internal_timeout_occurred then some (early s) else more s

abbrev pub waits : Readings → I2c → Option I2c
waits r s = wait_for_high_scl s.timeout r.start r.polls s

unfoldable pub stop : Readings → I2c → Option I2c
unfolding wait_for_high_scl
stop r s =
    unless_timed_out (λ s. s)
      (λ s. some (record (half_period (call read_sda s)) { started = false }))
      (waits r (half_period (call clear_sda s)))

unfoldable pub start : Readings → I2c → Option I2c
unfolding wait_for_high_scl
start r s =
    unless_timed_out (λ s. s)
      (λ s. some (record (call clear_scl (half_period (call clear_sda s))) { started = true }))
      (waits r (if s.started then half_period (call read_sda s) else s))

unfoldable pub write_bit : Bool → Readings → I2c → Option I2c
unfolding wait_for_high_scl
write_bit b r s =
    unless_timed_out (λ s. s) (λ s. some (call clear_scl (half_period s)))
      (waits r (half_period (call (if b then read_sda else clear_sda) s)))

unfoldable pub read_bit : Readings → I2c → Option (Bool × I2c)
unfolding wait_for_high_scl
read_bit r s =
    unless_timed_out (λ s. (false, s))
      (λ s. some (r.sda, call clear_scl (half_period (call read_sda s))))
      (waits r (half_period (call read_sda s)))

-- The loop of `i2cWriteByte` with `n` rounds left; the readings of the i-th wait are `env i`.
unfoldable pub write_bits : ℕ → ℕ → ℕ → (ℕ → Readings) → I2c → Option I2c
unfolding write_bit
write_bits zero i byte env s = some s
write_bits (suc n) i byte env s =
    unless_timed_out (λ s. s) (write_bits n (i + 1) (u8 (byte * 2)) env)
      (write_bit (truth (bit_and byte 0x80)) (env i) s)

-- The end of `i2cWriteByte`: the bit of the slave, and a stop condition if it is not acknowledged.
abbrev pub stop_if : Bool → Readings → I2c → Option (Bool × I2c)
stop_if false r s = some (false, s)
stop_if true r s = unless_timed_out (λ s. (false, s)) (λ s. some (true, s)) (stop r s)

abbrev pub acknowledged : Readings → Option (Bool × I2c) → Option (Bool × I2c)
acknowledged r none = none
acknowledged r (some (nack, s)) =
    if s.internal_timeout_occurred then some (false, s) else stop_if nack r s

unfoldable pub write_byte : ℕ → (ℕ → Readings) → I2c → Option (Bool × I2c)
unfolding write_bits read_bit stop
write_byte byte env s =
    unless_timed_out (λ s. (false, s)) (λ s. acknowledged (env 9) (read_bit (env 8) s))
      (write_bits 8 0 byte env (record s { internal_timeout_occurred = false }))

-- The loop of `i2cReadByte` with `n` rounds left, and its return at a timeout.
abbrev pub next_bit : ℕ → (ℕ → I2c → Option (ℕ × I2c)) → Option (Bool × I2c) → Option (ℕ × I2c)
next_bit byte more none = none
next_bit byte more (some (b, s)) =
    if s.internal_timeout_occurred
    then some (0, s)
    else more (bit_or (u16 (byte * 2)) (if b then 1 else 0)) s

unfoldable pub read_bits : ℕ → ℕ → ℕ → (ℕ → Readings) → I2c → Option (ℕ × I2c)
unfolding read_bit
read_bits zero i byte env s = some (byte, s)
read_bits (suc n) i byte env s =
    next_bit byte (λ byte. read_bits n (i + 1) byte env) (read_bit (env i) s)

abbrev pub finished : Bool → Readings → Option (ℕ × I2c) → Option (ℕ × I2c)
finished nack r none = none
finished nack r (some (byte, s)) =
    if s.internal_timeout_occurred
    then some (0, s)
    else unless_timed_out (λ s. (0, s)) (λ s. some (u8 byte, s)) (write_bit nack r s)

unfoldable pub read_byte : Bool → (ℕ → Readings) → I2c → Option (ℕ × I2c)
unfolding read_bits write_bit
read_byte nack env s =
    finished nack (env 8) (read_bits 8 0 0 env (record s { internal_timeout_occurred = false }))
