-- ===== src/Gpio/Pins.antt =====
-- What each pin drives, as one independent cell for each pin.
use wixel_sdk.Base.{
  ℕ, ◌/◌, ◌%◌, ◌^◌, ◌<◌, ◌≡◌, ◌≢◌, refl, sym, ap, ap₂, ◌∙◌, subst, Bool, true, false, Option, none,
  some, if◌then◌else◌, ◌==◌, arith, ltb, leb, not, ◌&&◌, if_cases, if_both,
}
use wixel_sdk.Base.Bits.{all_below, all_below-test}
use wixel_sdk.Gpio.{
  Gpio, Port, PortName, port0, port1, port2, pin_switch, port, put_bit, set_digital_output,
  set_digital_input, output, input, at_pin,
}

abbrev pub bit : ℕ → ℕ → Bool
bit r i = r / 2 ^ i % 2 == 1

abbrev same : Bool → Bool → Bool
same true b = b
same false b = not b

same-≡ : (a b : Bool) → same a b ≡ true → a ≡ b
same-≡ true b h = sym h
same-≡ false b h = ground (arith, h)

-- On a byte register, putting a bit changes that bit and no other, and stays a byte.
put_bit-bit_test :
    (v : Bool)
    → all_below 256 (λ r.
      all_below 8
        (λ i. all_below 8 (λ j. same (bit (put_bit i v r) j) (if i == j then v else bit r j))))
      ≡ true
unfolding all_below
put_bit-bit_test true = refl
put_bit-bit_test false = refl

put_bit-byte_test :
    (v : Bool) → all_below 256 (λ r. all_below 8 (λ i. ltb (put_bit i v r) 256)) ≡ true
unfolding all_below
put_bit-byte_test true = refl
put_bit-byte_test false = refl

pub bit-put_bit :
    (v : Bool) (r i j : ℕ)
    → r < 256
    → i < 8
    → j < 8
    → bit (put_bit i v r) j ≡ (if i == j then v else bit r j)
bit-put_bit v r i j hr hi hj =
    same-≡ _ _
      (all_below-test _ 8 hj (all_below-test _ 8 hi (all_below-test _ 256 hr (put_bit-bit_test v))))

put_bit-lt : (v : Bool) (r i : ℕ) → r < 256 → i < 8 → put_bit i v r < 256
put_bit-lt v r i hr hi =
    let t = all_below-test _ 8 hi (all_below-test _ 256 hr (put_bit-byte_test v)) in
    ground (arith, t)

pub record IsBytes (p : Port) : Type 0 where
  pub latch : p.latch < 256
  pub dir : p.dir < 256
  pub inp : p.inp < 256

pub record IsValid (g : Gpio) : Type 0 where
  pub p0 : IsBytes g.p0
  pub p1 : IsBytes g.p1
  pub p2 : IsBytes g.p2

-- What a pin is asked to be.
pub data PinState : Type 0 where
  drives : Bool → PinState
  pulled floating : PinState

abbrev pin_state : ℕ → Port → PinState
pin_state i p =
    if bit p.dir i then drives (bit p.latch i) else if bit p.inp i then floating else pulled

pin_state-output :
    (i j : ℕ) (v : Bool) (p : Port)
    → i < 8
    → j < 8
    → IsBytes p
    → pin_state j (output i v p) ≡ (if i == j then drives v else pin_state j p)
pin_state-output i j v p hi hj valid =
    let d = bit-put_bit true p.dir i j valid.dir hi hj in
    let l = bit-put_bit v p.latch i j valid.latch hi hj in ground (arith, d, l)

pin_state-input :
    (i j : ℕ) (v : Bool) (p : Port)
    → i < 8
    → j < 8
    → IsBytes p
    → pin_state j (input i v p)
      ≡ (if i == j then (if v then pulled else floating) else pin_state j p)
pin_state-input i j true p hi hj valid =
    let d = bit-put_bit false p.dir i j valid.dir hi hj in
    let l = bit-put_bit false p.inp i j valid.inp hi hj in ground (arith, d, l)
pin_state-input i j false p hi hj valid =
    let d = bit-put_bit false p.dir i j valid.dir hi hj in
    let l = bit-put_bit true p.inp i j valid.inp hi hj in ground (arith, d, l)

output-IsBytes : (i : ℕ) (v : Bool) (p : Port) → i < 8 → IsBytes p → IsBytes (output i v p)
output-IsBytes i v p hi valid = record {
  latch = put_bit-lt v p.latch i valid.latch hi;
  dir = put_bit-lt true p.dir i valid.dir hi;
  inp = valid.inp;
}

input-IsBytes : (i : ℕ) (v : Bool) (p : Port) → i < 8 → IsBytes p → IsBytes (input i v p)
input-IsBytes i true p hi valid = record {
  latch = valid.latch;
  dir = put_bit-lt false p.dir i valid.dir hi;
  inp = put_bit-lt false p.inp i valid.inp hi;
}
input-IsBytes i false p hi valid = record {
  latch = valid.latch;
  dir = put_bit-lt false p.dir i valid.dir hi;
  inp = put_bit-lt true p.inp i valid.inp hi;
}

-- The places of two pins are one place if and only if the pins are one pin.
abbrev same_port : PortName → PortName → Bool
same_port port0 port0 = true
same_port port1 port1 = true
same_port port2 port2 = true
same_port p q = false

abbrev same_place : PortName × ℕ → PortName × ℕ → Bool
same_place (p, i) (q, j) = same_port p q && i == j

abbrev places_agree : ℕ → ℕ → Option (PortName × ℕ) → Option (PortName × ℕ) → Bool
places_agree n m (some a) (some b) = same (same_place a b) (n == m)
places_agree n m a b = true

places_test :
    all_below 25 (λ n. all_below 25 (λ m. places_agree n m (pin_switch n) (pin_switch m))) ≡ true
unfolding all_below
places_test = refl

abbrev Within : ℕ → Option (PortName × ℕ) → Type 0
Within n none = Unit
Within n (some (p, i)) = (n < 25) × (i < 8)

pin_switch-Within : (n : ℕ) → Within n (pin_switch n)
pin_switch-Within n =
    if_cases (Within n) (ltb n 6) _ _ (λ lo. ground (arith, lo))
      (λ lo.
        if_cases (Within n) (leb 10 n && ltb n 18) _ _ (λ mid. ground (arith, mid))
          (λ mid.
            if_cases (Within n) (leb 20 n && ltb n 25) _ _ (λ hi. ground (arith, hi)) (λ hi. tt)))

pin_switch-lt : (n : ℕ) {a : PortName × ℕ} → pin_switch n ≡ some a → (n < 25) × (a.1 < 8)
pin_switch-lt n h = subst (Within n) h (pin_switch-Within n)

places :
    (n m : ℕ) {a b : PortName × ℕ}
    → pin_switch n ≡ some a
    → pin_switch m ≡ some b
    → same_place a b ≡ (n == m)
places n m ha hb =
    let t =
      all_below-test _ 25 (pin_switch-lt m hb).0
        (all_below-test _ 25 (pin_switch-lt n ha).0 places_test) in
    same-≡ _ _ (sym (ap₂ (places_agree n m) ha hb) ∙ t)

abbrev state_at : Option (PortName × ℕ) → Gpio → Option PinState
state_at none g = none
state_at (some (p, i)) g = some (pin_state i (port p g))

-- What a pin is asked to be; `none` for a number that is no pin.
unfoldable pub pin : ℕ → Gpio → Option PinState
pin n g = state_at (pin_switch n) g

-- A pin's new state, where there is such a pin.
abbrev pub becomes : PinState → Option PinState → Option PinState
becomes w none = none
becomes w (some old) = some w

-- A change of one bit of a port is a change of one pin.
module _ (f : ℕ → Port → Port) (w : PinState)
    (changes : (i j : ℕ) (p : Port)
      → i < 8
      → j < 8
      → IsBytes p
      → pin_state j (f i p) ≡ (if i == j then w else pin_state j p)) where
  state_at-at_pin :
      (p q : PortName) (i j : ℕ) (g : Gpio)
      → i < 8
      → j < 8
      → IsValid g
      → state_at (some (q, j)) (at_pin (some (p, i)) f g)
        ≡ some (if same_place (p, i) (q, j) then w else pin_state j (port q g))
  state_at-at_pin port0 port0 i j g hi hj valid = ap some (changes i j g.p0 hi hj valid.p0)
  state_at-at_pin port1 port1 i j g hi hj valid = ap some (changes i j g.p1 hi hj valid.p1)
  state_at-at_pin port2 port2 i j g hi hj valid = ap some (changes i j g.p2 hi hj valid.p2)
  state_at-at_pin port0 port1 i j g hi hj valid = refl
  state_at-at_pin port0 port2 i j g hi hj valid = refl
  state_at-at_pin port1 port0 i j g hi hj valid = refl
  state_at-at_pin port1 port2 i j g hi hj valid = refl
  state_at-at_pin port2 port0 i j g hi hj valid = refl
  state_at-at_pin port2 port1 i j g hi hj valid = refl

  state_at-changes :
      (n m : ℕ) (a b : Option (PortName × ℕ)) (g : Gpio)
      → pin_switch n ≡ a
      → pin_switch m ≡ b
      → IsValid g
      → state_at b (at_pin a f g) ≡ (if n == m then becomes w (state_at b g) else state_at b g)
  state_at-changes n m a none g ha hb valid = if_both (λ r. none ≡ r) (n == m) refl refl
  state_at-changes n m none (some b) g ha hb valid =
      let apart : n ≢ m = λ e. absurd (ground (arith, sym ha ∙ ap pin_switch e ∙ hb)) in
      ground (arith, apart)
  state_at-changes n m (some (p, i)) (some (q, j)) g ha hb valid =
      let lo = (pin_switch-lt n ha).1 in
      let hi = (pin_switch-lt m hb).1 in
      state_at-at_pin p q i j g lo hi valid
      ∙ ap (λ c. some (if c then w else pin_state j (port q g))) (places n m ha hb)
      ∙ ground arith

-- Setting an output makes its pin drive the value, and changes what no other pin is asked to be; a
-- number that is no pin changes nothing.
pub pin-set_digital_output :
    (n m : ℕ) (v : Bool) (g : Gpio)
    → IsValid g
    → pin m (set_digital_output n v g) ≡ (if n == m then becomes (drives v) (pin m g) else pin m g)
unfolding pin set_digital_output
pin-set_digital_output n m v g valid =
    state_at-changes (λ i. output i v) (drives v)
      (λ i j p hi hj ok. pin_state-output i j v p hi hj ok) n m (pin_switch n) (pin_switch m) g refl
      refl valid

-- Setting an input makes its pin pulled or floating, and changes what no other pin is asked to be.
pub pin-set_digital_input :
    (n m : ℕ) (v : Bool) (g : Gpio)
    → IsValid g
    → pin m (set_digital_input n v g)
      ≡ (if n == m then becomes (if v then pulled else floating) (pin m g) else pin m g)
unfolding pin set_digital_input
pin-set_digital_input n m v g valid =
    state_at-changes (λ i. input i v) (if v then pulled else floating)
      (λ i j p hi hj ok. pin_state-input i j v p hi hj ok) n m (pin_switch n) (pin_switch m) g refl
      refl valid

module _ (f : ℕ → Port → Port)
    (keeps : (i : ℕ) (p : Port) → i < 8 → IsBytes p → IsBytes (f i p)) where
  at_pin-IsValid :
      (n : ℕ) (a : Option (PortName × ℕ)) (g : Gpio)
      → pin_switch n ≡ a
      → IsValid g
      → IsValid (at_pin a f g)
  at_pin-IsValid n none g h valid = valid
  at_pin-IsValid n (some (port0, i)) g h valid = record {
    p0 = keeps i g.p0 (pin_switch-lt n h).1 valid.p0;
    p1 = valid.p1;
    p2 = valid.p2;
  }
  at_pin-IsValid n (some (port1, i)) g h valid = record {
    p0 = valid.p0;
    p1 = keeps i g.p1 (pin_switch-lt n h).1 valid.p1;
    p2 = valid.p2;
  }
  at_pin-IsValid n (some (port2, i)) g h valid = record {
    p0 = valid.p0;
    p1 = valid.p1;
    p2 = keeps i g.p2 (pin_switch-lt n h).1 valid.p2;
  }

pub set_digital_output-IsValid :
    (n : ℕ) (v : Bool) (g : Gpio) → IsValid g → IsValid (set_digital_output n v g)
unfolding set_digital_output
set_digital_output-IsValid n v g valid =
    at_pin-IsValid (λ i. output i v) (λ i p hi ok. output-IsBytes i v p hi ok) n (pin_switch n) g
      refl valid

pub set_digital_input-IsValid :
    (n : ℕ) (v : Bool) (g : Gpio) → IsValid g → IsValid (set_digital_input n v g)
unfolding set_digital_input
set_digital_input-IsValid n v g valid =
    at_pin-IsValid (λ i. input i v) (λ i p hi ok. input-IsBytes i v p hi ok) n (pin_switch n) g refl
      valid
