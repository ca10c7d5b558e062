-- ===== src/Motors.antt =====
-- libraries/src/motors/motors.c: two motors, each driven by two pins of the motor driver, and the
-- pulse widths of timer 3.
pub mod Drive
use wixel_sdk.Base.{ℕ, Bool, true, false}
use wixel_sdk.Gpio.{Gpio, set_digital_output}

pub record Motors : Type 0 where
  pub gpio : Gpio
  pub t3cc0 : ℕ
  pub t3cc1 : ℕ

-- Which pins are which inputs of the motor driver
abbrev pub a1 : ℕ
a1 = 0

abbrev pub a2 : ℕ
a2 = 1

abbrev pub b1 : ℕ
b1 = 2

abbrev pub b2 : ℕ
b2 = 3

abbrev pub enable : ℕ
enable = 15

abbrev pub put : ℕ → Bool → Motors → Motors
put n value s = record s { gpio = set_digital_output n value s.gpio }

-- The four pins of the motors set in the order of the source's calls.
abbrev pub put_all : Bool → Bool → Bool → Bool → Motors → Motors
put_all a b c d s = put b2 d (put b1 c (put a2 b (put a1 a s)))

-- `setMotorsPulled`; PULLED is 1.
unfoldable pub set_motors_pulled : Motors → Motors
set_motors_pulled s = put enable true (put_all true true true true s)

unfoldable pub enable_motors : Bool → Motors → Motors
enable_motors standby = put enable standby

-- `setLeftPWM` and `setRightPWM`
unfoldable pub set_left_pwm : ℕ → Motors → Motors
set_left_pwm val s = record s { t3cc0 = val }

unfoldable pub set_right_pwm : ℕ → Motors → Motors
set_right_pwm val s = record s { t3cc1 = val }

unfoldable pub set_left_direction : Bool → Motors → Motors
set_left_direction false s = put a2 false (put a1 true s)
set_left_direction true s = put a2 true (put a1 false s)

unfoldable pub set_right_direction : Bool → Motors → Motors
set_right_direction false s = put b2 false (put b1 true s)
set_right_direction true s = put b2 true (put b1 false s)

unfoldable pub stop_motors : Motors → Motors
stop_motors = put_all false false false false

unfoldable pub brake : Motors → Motors
brake = put_all false false false false

unfoldable pub left : Motors → Motors
left = put_all false true false true

unfoldable pub right : Motors → Motors
right = put_all true false true false

unfoldable pub forward : Motors → Motors
forward = put_all true false false true

unfoldable pub reverse : Motors → Motors
reverse = put_all false true true false

unfoldable pub motors_init : Motors → Motors
unfolding set_motors_pulled stop_motors enable_motors set_left_pwm set_right_pwm
motors_init s =
    set_right_pwm 255 (set_left_pwm 255 (enable_motors true (stop_motors (set_motors_pulled s))))
