-- ===== src/Apps/SerialI2c/Writing.antt =====
-- The bytes of a write command one by one: the address, the length and a byte of data.
use wixel_sdk.Base.{
  ℕ, zero, suc, ◌+◌, ◌^◌, ◌%◌, ◌<◌, ◌≡◌, ◌≢◌, refl, sym, ap, subst, ◌∙◌, ◌⊎◌, inl, inr, Bool, true,
  false, List, [], ◌∷◌, Option, none, some, arith, if◌then◌else◌, if_cases, ◌==◌, bit_and, ltb,
}
use wixel_sdk.I2c.{I2c, Readings, write_byte}
use wixel_sdk.I2c.Bus.{Signal, clocked, OnSome, low, high, bus, stop_condition}
use wixel_sdk.I2c.Bytes.{clock_out, bits_of, Closes, write_byte-Closes}
use wixel_sdk.Apps.SerialI2c.{
  Bridge, State, idle, get_addr, get_len, get_data, err_i2c_timeout, err_i2c_nack_address,
  err_i2c_nack_data, flag, note_write, counted_down, get_length, parse_in, parse_cmd,
}
use wixel_sdk.Apps.SerialI2c.Commands.{bit_or-<, bit_or-flag}

-- Bytes on the bus one after another, each with the bit of the slave: the master leaves the data line to it.
abbrev pub frames : List ℕ → List Signal → List Signal
frames [] sigs = sigs
frames (x ∷ xs) sigs = frames xs (clocked true ∷ clock_out (bits_of x) sigs)

-- The state with `n` bytes of data left
abbrev pub phase : ℕ → State
phase zero = idle
phase (suc n) = get_data

-- The slave shows 0, the acknowledgement, after each of these bytes, at the calls from the i-th on.
abbrev pub Acknowledges : List ℕ → ℕ → (ℕ → ℕ → Readings) → Type 0
Acknowledges [] i env = Unit
Acknowledges (x ∷ xs) i env = ((env i 8).sda ≡ false) × Acknowledges xs (i + 1) env

-- An error is flagged; or this has been acknowledged, and the bus is low with these signals.
abbrev pub Outcome : Type 0 → Bool → List Signal → Bridge → Type 0
Outcome Acked d sigs b = (b.errors ≢ 0) ⊎ (Acked × (bus b.i2c.calls ≡ low d sigs))

pub record Progress (Acked : Type 0) (st : State) (n : ℕ) (d : Bool) (sigs : List Signal)
    (b : Bridge) : Type 0 where
  pub state : b.state ≡ st
  pub length : b.data_length ≡ n
  pub writes : b.dir_is_read ≡ false
  pub errors : b.errors < 256
  pub outcome : Outcome Acked d sigs b

flagged :
    {Acked Acked' : Type 0} (k : ℕ) (st : State) (n : ℕ) (d : Bool) (sigs : List Signal) (s : I2c)
    (b : Bridge) {d' : Bool} {sigs' : List Signal}
    → 0 < k
    → k < 128
    → Progress Acked st n d sigs b
    → Progress Acked' st n d' sigs' (record (flag k b) { i2c = s })
flagged k st n d sigs s b pk hk h = record {
  state = h.state;
  length = h.length;
  writes = h.writes;
  errors = bit_or-< k b.errors hk h.errors;
  outcome = inl (bit_or-flag k b.errors pk hk h.errors);
}

abbrev put_i2c : I2c → Bridge → Bridge
put_i2c s b = record b { i2c = s }

-- A byte written without an error is on the bus with the slave's acknowledgement.
acknowledged_line :
    (shown st : Bool) (sigs : List Signal) (s : I2c)
    → s.timeout_occurred ≡ false
    → Closes shown st sigs (false, s)
    → (shown ≡ false) × (bus s.calls ≡ low true sigs)
acknowledged_line shown st sigs s quiet (inl (e, at)) = (
  sym e,
  at.line
      ∙ ap (λ c. if c then high true (stop_condition ∷ clocked false ∷ sigs) else low true sigs)
          (sym e),
)
acknowledged_line shown st sigs s quiet (inr (e, f)) =
    absurd (ground (arith, sym f.reported ∙ quiet))

module _ (Acked : Type 0) (k x : ℕ) (env : ℕ → Readings) (st : State) (n : ℕ) (d : Bool)
    (sigs : List Signal) (b : Bridge) where
  abbrev now : List Signal
  now = clocked true ∷ clock_out (bits_of x) sigs

  abbrev AckedNow : Type 0
  AckedNow = Acked × ((env 8).sda ≡ false)

  clean_outcome :
      (s : I2c)
      → x < 256
      → s.timeout_occurred ≡ false
      → write_byte x env b.i2c ≡ some (false, s)
      → Outcome Acked d sigs b
      → Outcome AckedNow true now (put_i2c s b)
  clean_outcome s hx t e (inl bad) = inl bad
  clean_outcome s hx t e (inr (acked, line)) =
      let h =
        acknowledged_line (env 8).sda b.i2c.started now s t
          (write_byte-Closes x env d sigs b.i2c hx line e) in
      inr ((acked, h.0), h.1)

  written-Progress :
      (nack : Bool) (s : I2c)
      → 0 < k
      → k < 128
      → x < 256
      → Progress Acked st n d sigs b
      → s.timeout_occurred ≡ false
      → write_byte x env b.i2c ≡ some (nack, s)
      → Progress AckedNow st n true now
          (if nack then record (flag k b) { i2c = s } else put_i2c s b)
  written-Progress true s pk hk hx h t e = flagged k st n d sigs s b pk hk h
  written-Progress false s pk hk hx h t e = record {
    state = h.state;
    length = h.length;
    writes = h.writes;
    errors = h.errors;
    outcome = clean_outcome s hx t e h.outcome;
  }

  note_write-Progress :
      (o : Option (Bool × I2c))
      → 0 < k
      → k < 128
      → x < 256
      → Progress Acked st n d sigs b
      → write_byte x env b.i2c ≡ o
      → OnSome (Progress AckedNow st n true now) (note_write k b o)
  note_write-Progress none pk hk hx h e = tt
  note_write-Progress (some (nack, s)) pk hk hx h e =
      if_cases {A = Bridge} (Progress AckedNow st n true now) s.timeout_occurred
        (record (flag err_i2c_timeout b) { i2c = record s { timeout_occurred = false } })
        (if nack then record (flag k b) { i2c = s } else put_i2c s b)
        (λ t.
          flagged err_i2c_timeout st n d sigs (record s { timeout_occurred = false }) b
            (omega arith) (omega arith) h)
        (λ t. written-Progress nack s pk hk hx h t e)

-- The address after a start, and the length after the address
abbrev pub Addressed : Type 0 → List Signal → Bridge → Type 0
Addressed Acked sigs b =
    (b.state ≡ get_len) × (b.dir_is_read ≡ false) × (b.errors < 256) × Outcome Acked true sigs b

-- What has been acknowledged may be said in another way.
pub said :
    {Acked Acked' : Type 0} (d : Bool) (sigs : List Signal) (b : Bridge)
    → (Acked → Acked')
    → Outcome Acked d sigs b
    → Outcome Acked' d sigs b
said d sigs b f (inl bad) = inl bad
said d sigs b f (inr (acked, line)) = inr (f acked, line)

forget_length :
    (Acked : Type 0) (n : ℕ) (sigs : List Signal) (o : Option Bridge)
    → OnSome (Progress Acked get_len n true sigs) o
    → OnSome (Addressed Acked sigs) o
forget_length Acked n sigs none h = tt
forget_length Acked n sigs (some b) h = (h.state, h.writes, h.errors, h.outcome)

pub parse_cmd-Addressed :
    (x : ℕ) (env : ℕ → Readings) (d : Bool) (sigs : List Signal) (b : Bridge)
    → x < 256
    → bit_and x 1 ≡ 0
    → b.state ≡ get_addr
    → b.errors < 256
    → bus b.i2c.calls ≡ low d sigs
    → OnSome
        (Addressed (Unit × ((env 8).sda ≡ false)) (clocked true ∷ clock_out (bits_of x) sigs))
        (parse_cmd x env b)
unfolding parse_in
parse_cmd-Addressed x env d sigs b hx dir st he line =
    subst
      (λ st.
        OnSome
          (Addressed (Unit × ((env 8).sda ≡ false)) (clocked true ∷ clock_out (bits_of x) sigs))
          (parse_in st x env b))
      (sym st)
      (forget_length (Unit × ((env 8).sda ≡ false)) b.data_length _ _ (
        note_write-Progress Unit err_i2c_nack_address x env get_len b.data_length d sigs
          (record b { dir_is_read = bit_and x 1 == 1; state = get_len }) (write_byte x env b.i2c)
          (omega arith) (omega arith) hx
          (record {
            state = refl;
            length = refl;
            writes = ground (arith, dir);
            errors = he;
            outcome = inr (tt, line);
          })
          refl))

pub parse_cmd-length :
    (Acked : Type 0) (n : ℕ) (env : ℕ → Readings) (sigs : List Signal) (b : Bridge)
    → Addressed Acked sigs b
    → OnSome (Progress Acked (phase n) n true sigs) (parse_cmd n env b)
unfolding parse_in
parse_cmd-length Acked n env sigs b h =
    subst (λ st. OnSome (Progress Acked (phase n) n true sigs) (parse_in st n env b)) (sym h.0)
      (begun n)
  where
    begun : (n : ℕ) → Progress Acked (phase n) n true sigs (get_length n b)
    begun zero = record { state = refl; length = refl; writes = h.1; errors = h.2; outcome = h.3 }
    begun (suc n) = record {
      state =
          ap (λ c. if c then get_data else idle) {x = ltb 0 (suc n)} {y = true} (ground (arith));
      length = refl;
      writes = h.1;
      errors = h.2;
      outcome = h.3;
    }

-- A byte of data
counted_down-Progress :
    (Acked : Type 0) (n : ℕ) (sigs : List Signal) (o : Option Bridge)
    → suc n < 256
    → OnSome (Progress Acked get_data (suc n) true sigs) o
    → OnSome (Progress Acked (phase n) n true sigs) (counted_down o)
counted_down-Progress Acked n sigs none hn h = tt
counted_down-Progress Acked n sigs (some b) hn h = record {
  state = ap (λ m. if m == 0 then idle else b.state) left ∙ ends n h.state;
  length = left;
  writes = h.writes;
  errors = h.errors;
  outcome = h.outcome;
}
  where
    left : (b.data_length + 255) % 2 ^ 8 ≡ n
    left = omega (arith, h.length)

    ends : (n : ℕ) → b.state ≡ get_data → (if n == 0 then idle else b.state) ≡ phase n
    ends zero e = refl
    ends (suc n) e =
        ap (λ c. if c then idle else b.state) {x = suc n == 0} {y = false} (ground (arith)) ∙ e

pub parse_cmd-data :
    (Acked : Type 0) (x n : ℕ) (env : ℕ → Readings) (sigs : List Signal) (b : Bridge)
    → x < 256
    → suc n < 256
    → Progress Acked get_data (suc n) true sigs b
    → OnSome
        (Progress
          (Acked × ((env 8).sda ≡ false))
          (phase n)
          n
          true
          (clocked true ∷ clock_out (bits_of x) sigs))
        (parse_cmd x env b)
unfolding parse_in
parse_cmd-data Acked x n env sigs b hx hn h =
    let P = OnSome (
      Progress (Acked × ((env 8).sda ≡ false)) (phase n) n true
        (clocked true ∷ clock_out (bits_of x) sigs)) in
    subst (λ st. P (parse_in st x env b)) (sym h.state)
      (subst
        (λ r. P (
          if r
          then some (flag 8 b)
          else counted_down (note_write err_i2c_nack_data b (write_byte x env b.i2c))))
        (sym h.writes)
        (counted_down-Progress (Acked × ((env 8).sda ≡ false)) n _ _ hn (
          note_write-Progress Acked err_i2c_nack_data x env get_data (suc n) true sigs b
            (write_byte x env b.i2c) (omega arith) (omega arith) hx h refl)))
