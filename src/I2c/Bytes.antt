-- ===== src/I2c/Bytes.antt =====
-- A whole byte on the bus: written, acknowledged and read.
use wixel_sdk.Base.{
  ℕ, zero, suc, ◌+◌, ◌*◌, ◌/◌, ◌%◌, ◌^◌, ◌<◌, ◌≡◌, refl, sym, ap, subst, ◌∙◌, Bool, true, false,
  not, List, [], ◌∷◌, Option, none, some, if◌then◌else◌, arith, ◌==◌, ◌&&◌, ◌⊎◌, inl, inr, u8,
  truth, bit_and,
}
use wixel_sdk.Base.Bits.{all_below, all_below-test}
use wixel_sdk.I2c.{I2c, Readings, write_bits, write_byte, acknowledged, stop_if}
use wixel_sdk.I2c.Bus.{
  Signal, clocked, stop_condition, OnSome, At, Fails, Ends, Reads, low, high, after_call, bus,
  OnSome-elim, write_bit-Ends, read_bit-Reads, stop-Ends,
}

-- Bits on the bus one after another, the newest signal first.
abbrev pub clock_out : List Bool → List Signal → List Signal
clock_out [] sigs = sigs
clock_out (b ∷ bs) sigs = clock_out bs (clocked b ∷ sigs)

abbrev shifted_bits : ℕ → ℕ → List Bool
shifted_bits zero byte = []
shifted_bits (suc n) byte = truth (bit_and byte 0x80) ∷ shifted_bits n (u8 (byte * 2))

abbrev pub last_sda : List Bool → Bool → Bool
last_sda [] d = d
last_sda (b ∷ bs) d = last_sda bs b

write_bits-Ends :
    (n i byte : ℕ) (env : ℕ → Readings) (st d : Bool) (sigs : List Signal) (s : I2c)
    → At st (low d sigs) s
    → OnSome
        (Ends st (low (last_sda (shifted_bits n byte) d) (clock_out (shifted_bits n byte) sigs)))
        (write_bits n i byte env s)
unfolding write_bits
write_bits-Ends zero i byte env st d sigs s h = inl h
write_bits-Ends (suc n) i byte env st d sigs s h =
    let b = truth (bit_and byte 0x80) in
    after_call _ st (low b (clocked b ∷ sigs)) _ _ _ (write_bit-Ends b (env i) st d sigs s h)
      (λ s f. inr f)
      (λ s at. write_bits-Ends n (i + 1) (u8 (byte * 2)) env st b (clocked b ∷ sigs) s at)

-- The bits of a byte, the most significant first.
abbrev bit : ℕ → ℕ → Bool
bit byte i = byte / 2 ^ i % 2 == 1

abbrev pub bits_of : ℕ → List Bool
bits_of x = bit x 7 ∷ bit x 6 ∷ bit x 5 ∷ bit x 4 ∷ bit x 3 ∷ bit x 2 ∷ bit x 1 ∷ bit x 0 ∷ []

abbrev same_bits : List Bool → List Bool → Bool
same_bits [] [] = true
same_bits (true ∷ xs) (true ∷ ys) = same_bits xs ys
same_bits (false ∷ xs) (false ∷ ys) = same_bits xs ys
same_bits xs ys = false

same_bits-≡ : (xs ys : List Bool) → same_bits xs ys ≡ true → xs ≡ ys
same_bits-≡ [] [] h = refl
same_bits-≡ [] (y ∷ ys) h = ground (arith, h)
same_bits-≡ (true ∷ xs) [] h = ground (arith, h)
same_bits-≡ (false ∷ xs) [] h = ground (arith, h)
same_bits-≡ (true ∷ xs) (true ∷ ys) h = ap (◌∷◌ true) (same_bits-≡ xs ys h)
same_bits-≡ (false ∷ xs) (false ∷ ys) h = ap (◌∷◌ false) (same_bits-≡ xs ys h)
same_bits-≡ (true ∷ xs) (false ∷ ys) h = ground (arith, h)
same_bits-≡ (false ∷ xs) (true ∷ ys) h = ground (arith, h)

shifted_bits_test : all_below 256 (λ x. same_bits (shifted_bits 8 x) (bits_of x)) ≡ true
unfolding all_below
shifted_bits_test = refl

shifted_bits-bits_of : (x : ℕ) → x < 256 → shifted_bits 8 x ≡ bits_of x
shifted_bits-bits_of x hx = same_bits-≡ _ _ (all_below-test _ 256 hx shifted_bits_test)

-- What the end of a byte makes of a bus that has clocked the slave's bit: nothing if the slave has
-- acknowledged, a stop if it has not, or the flags of a timeout and the result 0.
abbrev pub Closes : Bool → Bool → List Signal → Bool × I2c → Type 0
Closes shown st sigs (nack, s) =
    ((nack ≡ shown)
      × At (st && not shown)
          (if shown then high true (stop_condition ∷ clocked false ∷ sigs) else low true sigs) s)
    ⊎ ((nack ≡ false) × Fails s)

stop_if-Closes :
    (shown : Bool) (r : Readings) (st : Bool) (sigs : List Signal) (s : I2c)
    → At st (low true sigs) s
    → OnSome (Closes shown st sigs) (stop_if shown r s)
stop_if-Closes false r st sigs s h =
    inl (
      refl,
      record { in_time = h.in_time; remembers = h.remembers ∙ ground (arith); line = h.line },
    )
stop_if-Closes true r st sigs s h =
    after_call (Closes true st sigs) false (high true (stop_condition ∷ clocked false ∷ sigs)) _ _ _
      (stop-Ends r st true sigs s h) (λ s f. inr (refl, f))
      (λ s at. inl (
        refl,
        record { in_time = at.in_time; remembers = at.remembers ∙ ground (arith); line = at.line },
      ))

acknowledged-Closes :
    (shown : Bool) (r : Readings) (st : Bool) (sigs : List Signal) (o : Option (Bool × I2c))
    → OnSome (Reads shown st (low true sigs)) o
    → OnSome (Closes shown st sigs) (acknowledged r o)
acknowledged-Closes shown r st sigs none h = tt
acknowledged-Closes shown r st sigs (some (nack, s)) (inl (e, at)) =
    subst (λ c. OnSome (Closes shown st sigs) (if c then some (false, s) else stop_if nack r s))
      (sym at.in_time)
      (subst (λ nack. OnSome (Closes shown st sigs) (stop_if nack r s)) (sym e)
        (stop_if-Closes shown r st sigs s at))
acknowledged-Closes shown r st sigs (some (nack, s)) (inr (e, f)) =
    subst (λ c. OnSome (Closes shown st sigs) (if c then some (false, s) else stop_if nack r s))
      (sym f.timed_out) (inr (refl, f))

-- A byte written with the clock low puts its bits on the bus, the most significant first, and then
-- clocks the slave's bit, which it returns: 0 leaves the clock low for the next byte, 1 has made a stop
-- condition. After a timeout 0 is returned, both flags are set and no start is remembered.
pub write_byte-Closes :
    (byte : ℕ) (env : ℕ → Readings) (d : Bool) (sigs : List Signal) (s : I2c) {nack : Bool}
    {s' : I2c}
    → byte < 256
    → bus s.calls ≡ low d sigs
    → write_byte byte env s ≡ some (nack, s')
    → Closes (env 8).sda s.started (clocked true ∷ clock_out (bits_of byte) sigs) (nack, s')
unfolding write_byte
write_byte-Closes byte env d sigs s hb line e =
    let C = Closes (env 8).sda s.started (clocked true ∷ clock_out (bits_of byte) sigs) in
    let out =
      subst
        (λ bs.
          OnSome (Ends s.started (low (last_sda bs d) (clock_out bs sigs)))
            (write_bits 8 0 byte env (record s { internal_timeout_occurred = false })))
        (shifted_bits-bits_of byte hb)
        (write_bits-Ends 8 0 byte env s.started d sigs
          (record s { internal_timeout_occurred = false })
          (record { in_time = refl; remembers = refl; line = line })) in
    OnSome-elim C
      (after_call C s.started (low (bit byte 0) (clock_out (bits_of byte) sigs)) _ _ _ out
        (λ s f. inr (refl, f))
        (λ s' at.
          acknowledged-Closes (env 8).sda (env 9) s.started
            (clocked true ∷ clock_out (bits_of byte) sigs) _
            (read_bit-Reads (env 8) s.started (bit byte 0) (clock_out (bits_of byte) sigs) s' at)))
      e
