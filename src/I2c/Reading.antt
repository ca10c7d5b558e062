-- ===== src/I2c/Reading.antt =====
-- A whole byte read from the bus.
use wixel_sdk.Base.{
  ℕ, zero, suc, ◌+◌, ◌*◌, ◌<◌, ◌≡◌, refl, sym, ap, subst, ◌∙◌, Bool, true, false, List, [], ◌∷◌,
  Option, none, some, if◌then◌else◌, ◌==◌, ◌⊎◌, inl, inr, u8, u16, bit_or, ==_iff,
}
use wixel_sdk.Base.Bits.{all_below, all_below-test}
use wixel_sdk.I2c.{
  I2c, Readings, write_bit, read_bits, read_byte, next_bit, finished, unless_timed_out,
}
use wixel_sdk.I2c.Bus.{
  Signal, clocked, Bus, bus, OnSome, At, Fails, Reads, low, after_call, write_bit-Ends,
  read_bit-Reads, OnSome-elim,
}
use wixel_sdk.I2c.Bytes.{clock_out, bits_of, last_sda}

-- What the slave shows at `n` waits from the i-th on, and a released data line at as many.
abbrev pub shown : ℕ → ℕ → (ℕ → Readings) → List Bool
shown zero i env = []
shown (suc n) i env = (env i).sda ∷ shown n (i + 1) env

abbrev pub released : ℕ → List Bool
released zero = []
released (suc n) = true ∷ released n

abbrev shift_in : ℕ → List Bool → ℕ
shift_in byte [] = byte
shift_in byte (b ∷ bs) = shift_in (bit_or (u16 (byte * 2)) (if b then 1 else 0)) bs

abbrev Gathers : ℕ → Bool → Bus → ℕ × I2c → Type 0
Gathers total st b (byte, s) = ((byte ≡ total) × At st b s) ⊎ ((byte ≡ 0) × Fails s)

next_bit-Gathers :
    (byte total : ℕ) (shown st : Bool) (b c : Bus) (more : ℕ → I2c → Option (ℕ × I2c))
    (o : Option (Bool × I2c))
    → OnSome (Reads shown st b) o
    → ((s : I2c)
        → At st b s
        → OnSome (Gathers total st c) (more (bit_or (u16 (byte * 2)) (if shown then 1 else 0)) s))
    → OnSome (Gathers total st c) (next_bit byte more o)
next_bit-Gathers byte total shown st b c more none h k = tt
next_bit-Gathers byte total shown st b c more (some (x, s)) (inl (e, at)) k =
    let goes : Bool → Option (ℕ × I2c) =
      λ x. more (bit_or (u16 (byte * 2)) (if x then 1 else 0)) s in
    subst (λ t. OnSome (Gathers total st c) (if t then some (0, s) else goes x)) (sym at.in_time)
      (subst (λ x. OnSome (Gathers total st c) (goes x)) (sym e) (k s at))
next_bit-Gathers byte total shown st b c more (some (x, s)) (inr (e, f)) k =
    subst
      (λ t.
        OnSome (Gathers total st c)
          (if t then some (0, s) else more (bit_or (u16 (byte * 2)) (if x then 1 else 0)) s))
      (sym f.timed_out) (inr (refl, f))

read_bits-Gathers :
    (n i byte : ℕ) (env : ℕ → Readings) (st d : Bool) (sigs : List Signal) (s : I2c)
    → At st (low d sigs) s
    → OnSome
        (Gathers
          (shift_in byte (shown n i env))
          st
          (low (last_sda (released n) d) (clock_out (released n) sigs)))
        (read_bits n i byte env s)
unfolding read_bits
read_bits-Gathers zero i byte env st d sigs s h = inl (refl, h)
read_bits-Gathers (suc n) i byte env st d sigs s h =
    let b = low true (clocked true ∷ sigs) in
    let last = low (last_sda (released n) true) (clock_out (released n) (clocked true ∷ sigs)) in
    let now = bit_or (u16 (byte * 2)) (if (env i).sda then 1 else 0) in
    next_bit-Gathers byte (shift_in byte (shown (suc n) i env)) (env i).sda st b last
      (λ x. read_bits n (i + 1) x env) _ (read_bit-Reads (env i) st d sigs s h)
      (λ s at. read_bits-Gathers n (i + 1) now env st true (clocked true ∷ sigs) s at)

shift_in_test : all_below 256 (λ x. u8 (shift_in 0 (bits_of x)) == x) ≡ true
unfolding all_below
shift_in_test = refl

shift_in-bits_of : (x : ℕ) → x < 256 → u8 (shift_in 0 (bits_of x)) ≡ x
shift_in-bits_of x hx = (==_iff _ _).0 (all_below-test _ 256 hx shift_in_test)

finished-Gathers :
    (nack : Bool) (r : Readings) (total : ℕ) (st d : Bool) (sigs : List Signal)
    (o : Option (ℕ × I2c))
    → OnSome (Gathers total st (low d sigs)) o
    → OnSome (Gathers (u8 total) st (low nack (clocked nack ∷ sigs))) (finished nack r o)
finished-Gathers nack r total st d sigs none h = tt
finished-Gathers nack r total st d sigs (some (byte, s)) (inl (e, at)) =
    let G = Gathers (u8 total) st (low nack (clocked nack ∷ sigs)) in
    let ends = unless_timed_out (λ s. (0, s)) (λ s. some (u8 byte, s)) (write_bit nack r s) in
    subst (λ t. OnSome G (if t then some (0, s) else ends)) (sym at.in_time)
      (after_call G st (low nack (clocked nack ∷ sigs)) _ _ _ (write_bit-Ends nack r st d sigs s at)
        (λ s f. inr (refl, f)) (λ s at. inl (ap u8 e, at)))
finished-Gathers nack r total st d sigs (some (byte, s)) (inr (e, f)) =
    let G = Gathers (u8 total) st (low nack (clocked nack ∷ sigs)) in
    let ends = unless_timed_out (λ s. (0, s)) (λ s. some (u8 byte, s)) (write_bit nack r s) in
    subst (λ t. OnSome G (if t then some (0, s) else ends)) (sym f.timed_out) (inr (refl, f))

-- A byte whose bits the slave shows, the most significant first, is what reading returns; the bus has
-- clocked the data line released eight times, then the master's answer. After a timeout 0 is returned,
-- both flags are set and no start is remembered.
pub read_byte-shown :
    (x : ℕ) (nack : Bool) (env : ℕ → Readings) (d : Bool) (sigs : List Signal) (s : I2c) {byte : ℕ}
    {s' : I2c}
    → x < 256
    → shown 8 0 env ≡ bits_of x
    → bus s.calls ≡ low d sigs
    → read_byte nack env s ≡ some (byte, s')
    → ((byte ≡ x) × At s.started (low nack (clocked nack ∷ clock_out (released 8) sigs)) s')
      ⊎ ((byte ≡ 0) × Fails s')
unfolding read_byte
read_byte-shown x nack env d sigs s hx bits line e =
    let b = low nack (clocked nack ∷ clock_out (released 8) sigs) in
    OnSome-elim (Gathers x s.started b)
      (subst (λ total. OnSome (Gathers total s.started b) (read_byte nack env s))
        (ap (λ bs. u8 (shift_in 0 bs)) bits ∙ shift_in-bits_of x hx)
        (finished-Gathers nack (env 8) (shift_in 0 (shown 8 0 env)) s.started true
          (clock_out (released 8) sigs) _
          (read_bits-Gathers 8 0 0 env s.started d sigs
            (record s { internal_timeout_occurred = false })
            (record { in_time = refl; remembers = refl; line = line }))))
      e
