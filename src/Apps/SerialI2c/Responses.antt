-- ===== src/Apps/SerialI2c/Responses.antt =====
-- One byte of a read command: its response, and the signals on the bus.
use wixel_sdk.Base.{
  ℕ, zero, suc, ◌+◌, ◌^◌, ◌%◌, ◌<◌, ◌≡◌, ◌≢◌, refl, sym, ap, ◌∙◌, ◌⊎◌, inl, inr, Bool, true, false,
  List, [], ◌∷◌, Option, none, some, arith, length, if◌then◌else◌, if_cases, ◌==◌,
}
use wixel_sdk.I2c.{I2c, Readings, read_byte}
use wixel_sdk.I2c.Bus.{Signal, clocked, OnSome, low, bus}
use wixel_sdk.I2c.Bytes.{clock_out, bits_of}
use wixel_sdk.I2c.Reading.{shown, released, read_byte-shown}
use wixel_sdk.Apps.SerialI2c.{Bridge, idle, get_data, err_i2c_timeout, flag, count_down, note_read}
use wixel_sdk.Apps.SerialI2c.Commands.{bit_or-<, bit_or-flag}
use wixel_sdk.Apps.SerialI2c.Writing.{phase}

-- Bytes read on the bus one after another: the data line released for each, then the master's bit, 1 after
-- the last.
abbrev pub is_last : List ℕ → Bool
is_last xs = length xs == 0

abbrev pub read_frames : List ℕ → List Signal → List Signal
read_frames [] sigs = sigs
read_frames (x ∷ xs) sigs = read_frames xs (clocked (is_last xs) ∷ clock_out (released 8) sigs)

abbrev pub read_sda : List ℕ → Bool → Bool
read_sda [] d = d
read_sda (x ∷ xs) d = read_sda xs (is_last xs)

-- The slave shows these bytes, from the i-th call on.
abbrev pub Shows : List ℕ → ℕ → (ℕ → ℕ → Readings) → Type 0
Shows [] i env = Unit
Shows (x ∷ xs) i env = (shown 8 0 (env i) ≡ bits_of x) × Shows xs (i + 1) env

-- `n` bytes are still to be read.
pub record Reads (n : ℕ) (b : Bridge) : Type 0 where
  pub state : b.state ≡ phase n
  pub length : b.data_length ≡ n
  pub reads : b.dir_is_read ≡ true
  pub errors : b.errors < 256

-- An error is flagged; or what held still holds, the response is `x`, and the bus is low with these signals.
abbrev pub Outcome : Type 0 → ℕ → Bool → List Signal → Bridge → Type 0
Outcome Before x d sigs b =
    (b.errors ≢ 0) ⊎ (Before × (b.response ≡ x) × (bus b.i2c.calls ≡ low d sigs))

abbrev pub Responds : Type 0 → ℕ → ℕ → Bool → List Signal → Bridge → Type 0
Responds Before n x d sigs b = Reads n b × (b.return_response ≡ true) × Outcome Before x d sigs b

abbrev counted : Bridge → Bridge
counted b = record (count_down b) { return_response = true }

counted-Reads : (n : ℕ) (b : Bridge) → suc n < 256 → Reads (suc n) b → Reads n (counted b)
counted-Reads n b hn h = record {
  state = ap (λ m. if m == 0 then idle else b.state) left ∙ ends n h.state;
  length = left;
  reads = h.reads;
  errors = h.errors;
}
  where
    left : (b.data_length + 255) % 2 ^ 8 ≡ n
    left = omega (arith, h.length)

    ends : (n : ℕ) → b.state ≡ get_data → (if n == 0 then idle else b.state) ≡ phase n
    ends zero e = refl
    ends (suc n) e =
        ap (λ c. if c then idle else b.state) {x = suc n == 0} {y = false} (ground (arith)) ∙ e

module _ (Before : Type 0) (x n : ℕ) (env : ℕ → Readings) (d : Bool) (sigs : List Signal)
    (b : Bridge) where
  abbrev nack : Bool
  nack = b.data_length == 1

  abbrev answered : List Signal
  answered = clocked nack ∷ clock_out (released 8) sigs

  abbrev failed : I2c → Bridge
  failed s = record (flag err_i2c_timeout b) {
    response = 0;
    i2c = record s { timeout_occurred = false };
  }

  failed-Reads : (s : I2c) → Reads (suc n) b → Reads (suc n) (failed s)
  failed-Reads s h = record {
    state = h.state;
    length = h.length;
    reads = h.reads;
    errors = bit_or-< 4 b.errors (omega arith) h.errors;
  }

  read-Outcome :
      (byte : ℕ) (s : I2c)
      → x < 256
      → shown 8 0 env ≡ bits_of x
      → (b.errors ≢ 0) ⊎ (Before × (bus b.i2c.calls ≡ low d sigs))
      → s.timeout_occurred ≡ false
      → read_byte nack env b.i2c ≡ some (byte, s)
      → (b.errors ≢ 0) ⊎ (Before × (byte ≡ x) × (bus s.calls ≡ low nack answered))
  read-Outcome byte s hx shows (inl bad) quiet e = inl bad
  read-Outcome byte s hx shows (inr (before, line)) quiet e =
      elim (read_byte-shown x nack env d sigs b.i2c hx shows line e) [
        | inl (same, at) ↦ inr (before, same, at.line)
        | inr (z, f) ↦ absurd (ground (arith, sym f.reported ∙ quiet))
      ]

  pub note_read-Responds :
      (o : Option (ℕ × I2c))
      → x < 256
      → suc n < 256
      → shown 8 0 env ≡ bits_of x
      → Reads (suc n) b
      → (b.errors ≢ 0) ⊎ (Before × (bus b.i2c.calls ≡ low d sigs))
      → read_byte nack env b.i2c ≡ o
      → OnSome (Responds Before n x nack answered) (note_read b o)
  note_read-Responds none hx hn shows h out e = tt
  note_read-Responds (some (byte, s)) hx hn shows h out e =
      if_cases {A = Bridge} (λ b. Responds Before n x nack answered (counted b)) s.timeout_occurred
        (failed s) (record b { response = byte; i2c = s })
        (λ t. (
          counted-Reads n (failed s) hn (failed-Reads s h),
          refl,
          inl (bit_or-flag 4 b.errors (omega arith) (omega arith) h.errors),
        ))
        (λ t. (
          counted-Reads n (record b { response = byte; i2c = s }) hn
              (record { state = h.state; length = h.length; reads = h.reads; errors = h.errors }),
          refl,
          read-Outcome byte s hx shows out t e,
        ))
