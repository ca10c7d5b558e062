-- ===== src/Gpio.antt =====
-- libraries/src/gpio/gpio.c: the pins as latches, directions and input modes in the port registers.
-- What an input reads is the argument of `is_pin_high`.
pub mod Pins
use wixel_sdk.Base.{
  ℕ, ◌-◌, ◌^◌, Bool, true, false, Option, none, some, if◌then◌else◌, bit_and, bit_or, ltb, leb,
  ◌&&◌,
}

pub data PortName : Type 0 where
  port0 port1 port2 : PortName

-- A port's registers: P0, P0DIR and P0INP for port 0.
pub record Port : Type 0 where
  pub latch : ℕ
  pub dir : ℕ
  pub inp : ℕ

pub record Gpio : Type 0 where
  pub p0 : Port
  pub p1 : Port
  pub p2 : Port

-- PIN_SWITCH: the port and the bit of a pin number; the cases are 0 to 5, 10 to 17 and 20 to 24.
abbrev pub pin_switch : ℕ → Option (PortName × ℕ)
pin_switch n =
    if ltb n 6
    then some (port0, n)
    else if leb 10 n && ltb n 18
    then some (port1, n - 10)
    else if leb 20 n && ltb n 25
    then some (port2, n - 20)
    else none

abbrev pub port : PortName → Gpio → Port
port port0 g = g.p0
port port1 g = g.p1
port port2 g = g.p2

abbrev pub with_port : PortName → Port → Gpio → Gpio
with_port port0 p g = record g { p0 = p }
with_port port1 p g = record g { p1 = p }
with_port port2 p g = record g { p2 = p }

-- One bit of a register set or cleared.
abbrev pub put_bit : ℕ → Bool → ℕ → ℕ
put_bit i true r = bit_or r (2 ^ i)
put_bit i false r = bit_and r (255 - 2 ^ i)

-- SET_DIGITAL_OUTPUT and SET_DIGITAL_INPUT on a port's registers
abbrev pub output : ℕ → Bool → Port → Port
output i value p = record p { latch = put_bit i value p.latch; dir = put_bit i true p.dir }

abbrev pub input : ℕ → Bool → Port → Port
input i true p = record p { inp = put_bit i false p.inp; dir = put_bit i false p.dir }
input i false p = record p { inp = put_bit i true p.inp; dir = put_bit i false p.dir }

abbrev pub at_pin : Option (PortName × ℕ) → (ℕ → Port → Port) → Gpio → Gpio
at_pin none f g = g
at_pin (some (name, i)) f g = with_port name (f i (port name g)) g

-- `setDigitalOutput` and `setDigitalInput`
unfoldable pub set_digital_output : ℕ → Bool → Gpio → Gpio
set_digital_output n value = at_pin (pin_switch n) (λ i. output i value)

unfoldable pub set_digital_input : ℕ → Bool → Gpio → Gpio
set_digital_input n pulled = at_pin (pin_switch n) (λ i. input i pulled)

-- `isPinHigh`, with what the port's data register reads at a bit
unfoldable pub is_pin_high : (PortName → ℕ → Bool) → ℕ → Bool
is_pin_high reads n = elim (pin_switch n) [ none ↦ false | some (name, i) ↦ reads name i ]

abbrev set_pull_type : ℕ → Bool → Gpio → Gpio
set_pull_type i true g = record g { p2 = record (g.p2) { inp = put_bit i false g.p2.inp } }
set_pull_type i false g = record g { p2 = record (g.p2) { inp = put_bit i true g.p2.inp } }

-- `setPort0PullType` and so on
unfoldable pub set_port0_pull_type : Bool → Gpio → Gpio
set_port0_pull_type = set_pull_type 5

unfoldable pub set_port1_pull_type : Bool → Gpio → Gpio
set_port1_pull_type = set_pull_type 6

unfoldable pub set_port2_pull_type : Bool → Gpio → Gpio
set_port2_pull_type = set_pull_type 7
