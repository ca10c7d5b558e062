-- ===== src/Motors/Drive.antt =====
-- What the motor functions ask of the pins.
use wixel_sdk.Base.{
  ℕ, ◌≡◌, refl, ap, ap₂, ◌∙◌, Bool, true, false, Option, none, some, if◌then◌else◌, ◌==◌, arith,
  ltb,
}
use wixel_sdk.Gpio.Pins.{
  IsValid, PinState, drives, pin, becomes, pin-set_digital_output, set_digital_output-IsValid,
}
use wixel_sdk.Motors.{
  Motors, put, put_all, a1, a2, b1, b2, enable, forward, reverse, left, right, stop_motors, brake,
  motors_init, enable_motors, set_motors_pulled, set_left_pwm, set_right_pwm,
}

-- What a motor is asked to do by the two inputs of its half of the motor driver.
pub data Turn : Type 0 where
  ahead back coast short : Turn

abbrev turn : Option PinState → Option PinState → Option Turn
turn (some (drives true)) (some (drives false)) = some ahead
turn (some (drives false)) (some (drives true)) = some back
turn (some (drives false)) (some (drives false)) = some coast
turn (some (drives true)) (some (drives true)) = some short
turn x y = none

-- The left wheel goes ahead when A1 is high, the right wheel when B2 is high.
abbrev pub left_wheel : Motors → Option Turn
left_wheel s = turn (pin a1 s.gpio) (pin a2 s.gpio)

abbrev pub right_wheel : Motors → Option Turn
right_wheel s = turn (pin b2 s.gpio) (pin b1 s.gpio)

abbrev pub wheels : Motors → Option Turn × Option Turn
wheels s = (left_wheel s, right_wheel s)

put-IsValid : (n : ℕ) (v : Bool) (s : Motors) → IsValid s.gpio → IsValid (put n v s).gpio
put-IsValid n v s valid = set_digital_output-IsValid n v s.gpio valid

-- A pin after the four writes.
abbrev written : ℕ → Bool → ℕ → Option PinState → Option PinState
written n v m p = if n == m then becomes (drives v) p else p

pin-put_all :
    (m : ℕ) (a b c d : Bool) (s : Motors)
    → IsValid s.gpio
    → pin m (put_all a b c d s).gpio
      ≡ written b2 d m (written b1 c m (written a2 b m (written a1 a m (pin m s.gpio))))
pin-put_all m a b c d s valid =
    let s1 = put a1 a s in
    let s2 = put a2 b s1 in
    let s3 = put b1 c s2 in
    let v1 = put-IsValid a1 a s valid in
    let v2 = put-IsValid a2 b s1 v1 in
    let v3 = put-IsValid b1 c s2 v2 in
    pin-set_digital_output b2 m d s3.gpio v3
    ∙ ap (written b2 d m) (
        pin-set_digital_output b1 m c s2.gpio v2
        ∙ ap (written b1 c m) (
            pin-set_digital_output a2 m b s1.gpio v1
            ∙ ap (written a2 b m) (pin-set_digital_output a1 m a s.gpio valid)))

put_all-IsValid : (a b c d : Bool) (s : Motors) → IsValid s.gpio → IsValid (put_all a b c d s).gpio
put_all-IsValid a b c d s valid =
    let s1 = put a1 a s in
    let s2 = put a2 b s1 in
    put-IsValid b2 d (put b1 c s2)
      (put-IsValid b1 c s2 (put-IsValid a2 b s1 (put-IsValid a1 a s valid)))

wheels-put_all :
    (a b c d : Bool) (s : Motors)
    → IsValid s.gpio
    → wheels (put_all a b c d s)
      ≡ (turn (some (drives a)) (some (drives b)), turn (some (drives d)) (some (drives c)))
unfolding pin
wheels-put_all a b c d s valid =
    ap₂ (λ x y. (x, y)) (ap₂ turn (pin-put_all a1 a b c d s valid) (pin-put_all a2 a b c d s valid))
      (ap₂ turn (pin-put_all b2 a b c d s valid) (pin-put_all b1 a b c d s valid))

-- Forward turns both wheels ahead, Reverse both back, Left and Right one each way, and StopMotors and
-- Brake let both coast, whatever the wheels were asked before.
pub wheels_move :
    (s : Motors)
    → IsValid s.gpio
    → (wheels (forward s) ≡ (some ahead, some ahead))
      × (wheels (reverse s) ≡ (some back, some back))
      × (wheels (left s) ≡ (some back, some ahead))
      × (wheels (right s) ≡ (some ahead, some back))
      × (wheels (stop_motors s) ≡ (some coast, some coast))
      × (wheels (brake s) ≡ (some coast, some coast))
unfolding forward reverse left right stop_motors brake
wheels_move s valid = (
  wheels-put_all true false false true s valid,
  wheels-put_all false true true false s valid,
  wheels-put_all false true false true s valid,
  wheels-put_all true false true false s valid,
  wheels-put_all false false false false s valid,
  wheels-put_all false false false false s valid,
)

abbrev all_written : Bool → Bool → Bool → Bool → ℕ → Option PinState → Option PinState
all_written a b c d m p = written b2 d m (written b1 c m (written a2 b m (written a1 a m p)))

-- What is left of the writes of the initialisation.
written_last :
    (m : ℕ) (p : Option PinState)
    → written enable true m (
        all_written false false false false m
          (written enable true m (all_written true true true true m p)))
      ≡ (if ltb m 4
          then becomes (drives false) p
          else if m == enable
          then becomes (drives true) p
          else p)
written_last m none = ground arith
written_last m (some p) = ground arith

-- Initialisation makes the four pins of the motors low and the enable pin high, sets both pulse widths to
-- 255, and touches no other pin.
pub motors_init-pins :
    (m : ℕ) (s : Motors)
    → IsValid s.gpio
    → (pin m (motors_init s).gpio ≡ (
        if ltb m 4
        then becomes (drives false) (pin m s.gpio)
        else if m == enable
        then becomes (drives true) (pin m s.gpio)
        else pin m s.gpio))
      × ((motors_init s).t3cc0 ≡ 255)
      × ((motors_init s).t3cc1 ≡ 255)
unfolding motors_init set_motors_pulled stop_motors enable_motors set_left_pwm set_right_pwm
motors_init-pins m s valid =
    let pulled = put_all true true true true s in
    let v1 = put_all-IsValid true true true true s valid in
    let on = put enable true pulled in
    let v2 = put-IsValid enable true pulled v1 in
    let stopped = put_all false false false false on in
    let v3 = put_all-IsValid false false false false on v2 in
    (
      pin-set_digital_output enable m true stopped.gpio v3
          ∙ ap (written enable true m) (
              pin-put_all m false false false false on v2
              ∙ ap (all_written false false false false m) (
                  pin-set_digital_output enable m true pulled.gpio v1
                  ∙ ap (written enable true m) (pin-put_all m true true true true s valid)))
          ∙ written_last m (pin m s.gpio),
      refl,
      refl,
    )
