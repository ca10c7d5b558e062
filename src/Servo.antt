-- ===== src/Servo.antt =====
-- libraries/src/servo/servo.c: six servo outputs driven by Timer 1. The variables and the registers
-- that the library writes are fields of `Servos`; P0 and P1 are the output latches of the two ports.
-- The wait for the timer's overflow in `servosStop` is taken to end.
pub mod Motion
use wixel_sdk.Base.{
  ℕ, zero, suc, ◌+◌, ◌-◌, ◌*◌, ◌/◌, ◌%◌, ◌^◌, Bool, true, false, not, ◌&&◌, ◌||◌, List, [], ◌∷◌,
  Option, none, some, if◌then◌else◌, ◌==◌, ltb, u8, u16, bit_and, bit_or, truth, get_or, set,
  replicate,
}

abbrev pub max_servos : ℕ
max_servos = 6

abbrev pub ticks_per_microsecond : ℕ
ticks_per_microsecond = 24

-- `struct SERVO_DATA`
pub record ServoData : Type 0 where
  pub target : ℕ
  pub position : ℕ
  pub position_reg : ℕ
  pub speed : ℕ

abbrev pub still : ServoData
still = record { target = 0; position = 0; position_reg = 0; speed = 0 }

pub record Servos : Type 0 where
  pub started : Bool
  pub moving : Bool
  pub counter : ℕ
  pub assignment : List ℕ
  pub servo_data : List ServoData
  pub pins_on_port_0 : ℕ
  pub pins_on_port_1 : ℕ
  pub p0 : ℕ
  pub p1 : ℕ
  pub p0sel : ℕ
  pub p1sel : ℕ
  pub p0dir : ℕ
  pub p1dir : ℕ
  pub p2dir : ℕ
  pub percfg : ℕ
  pub t1ctl : ℕ
  pub t1cctl : ℕ
  pub t1cnt : ℕ
  pub t1cc0 : ℕ
  pub t1cc1 : ℕ
  pub t1cc2 : ℕ
  pub t1ie : Bool
  pub ea : Bool
  pub ip0 : ℕ
  pub ip1 : ℕ

-- `r &= ~mask` and `r |= mask` on a byte register
abbrev clear_bits : ℕ → ℕ → ℕ
clear_bits r mask = bit_and r (255 - mask)

abbrev set_bits : ℕ → ℕ → ℕ
set_bits r mask = bit_or r mask

-- `~x + 1` in 16 bits
abbrev pub negated : ℕ → ℕ
negated x = u16 (2 ^ 16 - 1 - x + 1)

-- The new position of a servo and whether it is still on its way: the body of the loop in the
-- interrupt routine.
unfoldable pub next_position : ServoData → ℕ × Bool
next_position d =
    if truth d.speed && truth d.position
    then (if ltb d.position d.target
        then (if ltb (d.target - d.position) d.speed
            then (d.target, false)
            else (u16 (d.position + d.speed), true))
        else (if ltb (d.position - d.target) d.speed
            then (d.target, false)
            else (d.position - d.speed, true)))
    else (d.target, false)

unfoldable pub update_servo : ServoData → ServoData
unfolding next_position
update_servo d =
    let pos = (next_position d).0 in record d { position = pos; position_reg = negated pos }

-- The loop over the servos, with `servosMovingFlag`.
unfoldable pub update_all : List ServoData → Bool → List ServoData × Bool
unfolding update_servo
update_all [] moving = ([], moving)
update_all (d ∷ ds) moving =
    let (rest, last) = update_all ds ((next_position d).1 || moving) in
    (update_servo d ∷ rest, last)

abbrev servo_at : Servos → ℕ → ServoData
servo_at s i = get_or s.servo_data i still

abbrev pub load_pulses : ℕ → Servos → Servos
load_pulses first s = record s {
  t1cc0 = (servo_at s first).position_reg;
  t1cc1 = (servo_at s (first + 1)).position_reg;
  t1cc2 = (servo_at s (first + 2)).position_reg;
}

abbrev no_pulses : Servos → Servos
no_pulses s = record s { t1cc0 = 0xFFFF; t1cc1 = 0xFFFF; t1cc2 = 0xFFFF }

-- The `switch` of the interrupt routine on the counter before its increment.
isr_case : ℕ → Servos → Servos
isr_case c s =
    if c == 0
    then load_pulses 0
        (record s { percfg = clear_bits s.percfg 64; p0sel = set_bits s.p0sel s.pins_on_port_0 })
    else (if c == 3
        then load_pulses 3
            (record s { percfg = set_bits s.percfg 64; p1sel = set_bits s.p1sel s.pins_on_port_1 })
        else (if c == 1 || c == 4
            then no_pulses s
            else (if c == 2
                then record s { p0sel = clear_bits s.p0sel s.pins_on_port_0 }
                else (if c == 5
                    then record s { p1sel = clear_bits s.p1sel s.pins_on_port_1 }
                    else (if c == 6
                        then (let (ds, moving) = update_all s.servo_data false in
                            record s { counter = 0; servo_data = ds; moving = moving })
                        else s)))))

-- `ISR(T1, 0)`
unfoldable pub t1_isr : Servos → Servos
unfolding isr_case update_all
t1_isr s = isr_case s.counter (record s { counter = u8 (s.counter + 1) })

-- `pinToInternalChannelNumber`
unfoldable pub channel_of_pin : ℕ → ℕ
channel_of_pin pin =
    if pin == 2
    then 0
    else (if pin == 3
        then 1
        else (if pin == 4
            then 2
            else (if pin == 12
                then 3
                else (if pin == 11 then 4 else (if pin == 10 then 5 else 0)))))

-- `servosStop`
unfoldable pub stop : Servos → Servos
stop s = if not s.started then s else record s {
  t1ie = false;
  p0sel = clear_bits s.p0sel s.pins_on_port_0;
  p1sel = clear_bits s.p1sel s.pins_on_port_1;
  t1ctl = 0;
  started = false;
}

-- The pin of a channel is driven low and noted: its bit on port 0 or on port 1.
assign_pin : ℕ → Servos → Servos
assign_pin c s =
    if ltb c 3
    then record s {
      p0 = clear_bits s.p0 (2 ^ (c + 2));
      pins_on_port_0 = set_bits s.pins_on_port_0 (2 ^ (c + 2));
    }
    else (if ltb c 6
        then record s {
          p1 = clear_bits s.p1 (2 ^ (5 - c));
          pins_on_port_1 = set_bits s.pins_on_port_1 (2 ^ (5 - c));
        }
        else s)

-- `for (i = 0; i < MAX_SERVOS; i++)` of `servosStart` with `n` rounds left; the list holds the pins
-- from `i` on that lie below `numPins`.
assign_from : ℕ → ℕ → List ℕ → Servos → Servos
unfolding assign_pin
assign_from zero i pins s = s
assign_from (suc n) i [] s =
    assign_from n (i + 1) [] (record s { servo_data = set s.servo_data i still })
assign_from (suc n) i (pin ∷ pins) s = assign_from n (i + 1) pins (
    assign_pin (channel_of_pin pin) (record s {
      servo_data = set s.servo_data i still;
      assignment = set s.assignment i (channel_of_pin pin);
    }))

configure_pins : List ℕ → Servos → Servos
unfolding assign_from channel_of_pin
configure_pins pins s =
    let a = assign_from max_servos 0 pins (record s { pins_on_port_0 = 0; pins_on_port_1 = 0 }) in
    record a {
      p0sel = clear_bits a.p0sel a.pins_on_port_0;
      p0dir = set_bits a.p0dir a.pins_on_port_0;
      p1sel = clear_bits a.p1sel a.pins_on_port_1;
      p1dir = set_bits a.p1dir a.pins_on_port_1;
      p2dir = if truth a.pins_on_port_0 then set_bits a.p2dir 0b11000000 else a.p2dir;
    }

-- The pins argument: null leaves the pins as they were.
configure : Option (List ℕ) → Servos → Servos
unfolding configure_pins
configure none s = s
configure (some pins) s = configure_pins pins s

-- `servosStart`; the list is the array `pins` of `numPins` entries.
unfoldable pub start : Option (List ℕ) → Servos → Servos
unfolding stop configure
start pins s =
    let a = configure pins (if s.started then stop s else s) in
    record (no_pulses a) {
      t1ctl = 1;
      t1cnt = 0;
      counter = 0;
      t1cctl = 0b00011100;
      ip0 = clear_bits a.ip0 2;
      ip1 = set_bits a.ip1 2;
      t1ie = true;
      ea = true;
      started = true;
    }

-- `servoData + servoAssignment[servoNum]`
abbrev pub channel : Servos → ℕ → ℕ
channel s num = get_or s.assignment num 0

abbrev pub servo : Servos → ℕ → ServoData
servo s num = servo_at s (channel s num)

abbrev write_servo : Servos → ℕ → ServoData → Servos
write_servo s num d = record s { servo_data = set s.servo_data (channel s num) d; t1ie = s.started }

-- `servoSetTargetHighRes`
unfoldable pub set_target_high_res : ℕ → ℕ → Servos → Servos
set_target_high_res num target s =
    let d = servo s num in
    if d.speed == 0 || d.target == 0 || target == 0
    then write_servo s num
        (record d { position = target; position_reg = negated target; target = target })
    else record (write_servo s num (record d { target = target })) {
      moving = not (target == d.position) || s.moving;
    }

-- `servoSetTarget`
unfoldable pub set_target : ℕ → ℕ → Servos → Servos
unfolding set_target_high_res
set_target num microseconds s =
    set_target_high_res num (u16 (microseconds * ticks_per_microsecond)) s

-- `servoSetSpeed`
unfoldable pub set_speed : ℕ → ℕ → Servos → Servos
set_speed num speed s = write_servo s num (record (servo s num) { speed = speed })

-- `servoGetTarget`, `servoGetPosition`, `servoGetTargetHighRes`, `servoGetPositionHighRes` and
-- `servoGetSpeed`; reading a position leaves the interrupt enabled as the library runs.
unfoldable pub get_target_high_res : ℕ → Servos → ℕ
get_target_high_res num s = (servo s num).target

unfoldable pub get_target : ℕ → Servos → ℕ
unfolding get_target_high_res
get_target num s = get_target_high_res num s / ticks_per_microsecond

unfoldable pub get_position_high_res : ℕ → Servos → ℕ × Servos
get_position_high_res num s = ((servo s num).position, record s { t1ie = s.started })

unfoldable pub get_position : ℕ → Servos → ℕ × Servos
unfolding get_position_high_res
get_position num s =
    let (position, s') = get_position_high_res num s in (position / ticks_per_microsecond, s')

unfoldable pub get_speed : ℕ → Servos → ℕ
get_speed num s = (servo s num).speed
