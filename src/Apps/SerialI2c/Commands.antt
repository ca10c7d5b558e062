-- ===== src/Apps/SerialI2c/Commands.antt =====
-- The machine of `parseCmd`: its invariant, and what a command timeout leaves of it.
use wixel_sdk.Base.{
  ℕ, ◌+◌, ◌^◌, ◌%◌, ◌<◌, ◌≡◌, ◌≢◌, refl, sym, ap, ◌∙◌, Bool, true, false, not, ◌&&◌, ◌||◌, Option,
  none, some, arith, if_both, if_cases, ◌==◌, ltb, u8, bit_and, bit_or,
}
use wixel_sdk.Base.Bits.{all_below, all_below-test}
use wixel_sdk.I2c.{I2c, Readings, start, stop, write_byte, read_byte, finished, write_bit}
use wixel_sdk.I2c.Bus.{OnSome, unless_timed_out-OnSome}
use wixel_sdk.Apps.SerialI2c.{
  Bridge, State, idle, get_addr, get_len, get_data, err_i2c_timeout, err_cmd_invalid,
  err_i2c_nack_address, err_i2c_nack_data, flag, with_i2c, command, note_write, count_down,
  counted_down, get_address, get_length, get_byte, parse_in, parse_cmd, note_read, i2c_read,
  is_get_data,
}

-- An error flag is still there after others.
abbrev keeps_flag : ℕ → ℕ → Bool
keeps_flag k e =
    ltb (bit_or e k) 256 && (k == 0 || not (bit_or e k == 0)) && (e == 0 || not (bit_or e k == 0))

keeps_flag_test : all_below 128 (λ k. all_below 256 (keeps_flag k)) ≡ true
unfolding all_below
keeps_flag_test = refl

keeps_flag_lem : (k e : ℕ) → k < 128 → e < 256 → keeps_flag k e ≡ true
keeps_flag_lem k e hk he =
    all_below-test (keeps_flag k) 256 he
      (all_below-test (λ k. all_below 256 (keeps_flag k)) 128 hk keeps_flag_test)

pub bit_or-< : (k e : ℕ) → k < 128 → e < 256 → bit_or e k < 256
bit_or-< k e hk he = ground (arith, keeps_flag_lem k e hk he)

pub bit_or-no_flag : (k e : ℕ) → k < 128 → e < 256 → bit_or e k ≡ 0 → e ≡ 0
bit_or-no_flag k e hk he z = ground (arith, keeps_flag_lem k e hk he, z)

pub bit_or-flag : (k e : ℕ) → 0 < k → k < 128 → e < 256 → bit_or e k ≢ 0
bit_or-flag k e pk hk he = λ z. ground (arith, keeps_flag_lem k e hk he, z)

-- A byte is left to transfer exactly while the machine is in the state GET_DATA.
pub record IsValid (b : Bridge) : Type 0 where
  pub errors : b.errors < 256
  pub response : b.response < 256
  pub length : b.data_length < 256
  pub counts : is_get_data b.state ≡ ltb 0 b.data_length

pub flag-IsValid : (k : ℕ) (b : Bridge) → k < 128 → IsValid b → IsValid (flag k b)
flag-IsValid k b hk h = record {
  errors = bit_or-< k b.errors hk h.errors;
  response = h.response;
  length = h.length;
  counts = h.counts;
}

pub with_i2c-IsValid : (b : Bridge) (o : Option I2c) → IsValid b → OnSome IsValid (with_i2c b o)
with_i2c-IsValid b none h = tt
with_i2c-IsValid b (some s) h = record {
  errors = h.errors;
  response = h.response;
  length = h.length;
  counts = h.counts;
}

abbrev on_i2c : I2c → Bridge → Bridge
on_i2c s b = record b { i2c = s }

on_i2c-IsValid : (s : I2c) (b : Bridge) → IsValid b → IsValid (on_i2c s b)
on_i2c-IsValid s b h = record {
  errors = h.errors;
  response = h.response;
  length = h.length;
  counts = h.counts;
}

-- Valid, and waiting for data or not.
abbrev pub Valid : Bool → Bridge → Type 0
Valid getting b = IsValid b × (is_get_data b.state ≡ getting)

note_write-Valid :
    (k : ℕ) (getting : Bool) (b : Bridge) (o : Option (Bool × I2c))
    → k < 128
    → Valid getting b
    → OnSome (Valid getting) (note_write k b o)
note_write-Valid k g b none hk h = tt
note_write-Valid k g b (some (nack, s)) hk (h, e) =
    if_both {A = Bridge} (Valid g) s.timeout_occurred
      (
        on_i2c-IsValid _ (flag err_i2c_timeout b) (flag-IsValid err_i2c_timeout b (omega arith) h),
        e,
      )
      (if_both {A = Bridge} (Valid g) nack (on_i2c-IsValid s (flag k b) (flag-IsValid k b hk h), e)
        (on_i2c-IsValid s b h, e))

count_down-IsValid : (b : Bridge) → is_get_data b.state ≡ true → IsValid b → IsValid (count_down b)
count_down-IsValid b e h =
    let n = (b.data_length + 255) % 2 ^ 8 in
    record {
      errors = h.errors;
      response = h.response;
      length = omega arith;
      counts =
          if_cases (λ st. is_get_data st ≡ ltb 0 n) (n == 0) idle b.state (λ z. ground (arith, z))
            (λ z. e ∙ ground (arith, z));
    }

command-IsValid :
    (byte : ℕ) (r : Readings) (b : Bridge)
    → is_get_data b.state ≡ false
    → IsValid b
    → OnSome IsValid (command byte r b)
unfolding command
command-IsValid byte r b e h =
    let empty : ltb 0 b.data_length ≡ false = sym h.counts ∙ e in
    if_both {A = Option Bridge} (OnSome IsValid) (byte == 69)
      (record { errors = omega arith; response = h.errors; length = h.length; counts = h.counts })
      (if_both {A = Option Bridge} (OnSome IsValid) (byte == 83)
        (with_i2c-IsValid (record b { started = true; state = get_addr }) (start r b.i2c)
          (record {
            errors = h.errors;
            response = h.response;
            length = h.length;
            counts = sym empty;
          }))
        (if_both {A = Option Bridge} (OnSome IsValid) (byte == 80 && b.started)
          (with_i2c-IsValid (record b { started = false }) (stop r b.i2c)
            (record {
              errors = h.errors;
              response = h.response;
              length = h.length;
              counts = h.counts;
            }))
          (flag-IsValid 8 b (omega arith) h)))

counted_down-IsValid : (o : Option Bridge) → OnSome (Valid true) o → OnSome IsValid (counted_down o)
counted_down-IsValid none h = tt
counted_down-IsValid (some b) (h, e) = count_down-IsValid b e h

Valid-IsValid : (g : Bool) (o : Option Bridge) → OnSome (Valid g) o → OnSome IsValid o
Valid-IsValid g none h = tt
Valid-IsValid g (some b) h = h.0

get_address-IsValid :
    (byte : ℕ) (env : ℕ → Readings) (b : Bridge)
    → is_get_data b.state ≡ false
    → IsValid b
    → OnSome IsValid (get_address byte env b)
get_address-IsValid byte env b e h = Valid-IsValid false _ (
    note_write-Valid err_i2c_nack_address false
      (record b { dir_is_read = bit_and byte 1 == 1; state = get_len }) (write_byte byte env b.i2c)
      (omega arith)
      (
        record {
          errors = h.errors;
          response = h.response;
          length = h.length;
          counts = sym (sym h.counts ∙ e);
        },
        refl,
      ))

get_length-IsValid : (byte : ℕ) (b : Bridge) → byte < 256 → IsValid b → IsValid (get_length byte b)
get_length-IsValid byte b hb h = record {
  errors = h.errors;
  response = h.response;
  length = hb;
  counts =
      if_cases (λ st. is_get_data st ≡ ltb 0 byte) (ltb 0 byte) get_data idle (λ z. sym z)
        (λ z. sym z);
}

get_byte-IsValid :
    (byte : ℕ) (env : ℕ → Readings) (b : Bridge)
    → is_get_data b.state ≡ true
    → IsValid b
    → OnSome IsValid (get_byte byte env b)
get_byte-IsValid byte env b e h =
    if_both {A = Option Bridge} (OnSome IsValid) b.dir_is_read
      (flag-IsValid err_cmd_invalid b (omega arith) h)
      (counted_down-IsValid _ (
        note_write-Valid err_i2c_nack_data true b (write_byte byte env b.i2c) (omega arith) (h, e)))

parse_in-IsValid :
    (st : State) (byte : ℕ) (env : ℕ → Readings) (b : Bridge)
    → b.state ≡ st
    → byte < 256
    → IsValid b
    → OnSome IsValid (parse_in st byte env b)
unfolding parse_in
parse_in-IsValid idle byte env b e hb h = command-IsValid byte (env 0) b (ap is_get_data e) h
parse_in-IsValid get_addr byte env b e hb h = get_address-IsValid byte env b (ap is_get_data e) h
parse_in-IsValid get_len byte env b e hb h = get_length-IsValid byte b hb h
parse_in-IsValid get_data byte env b e hb h = get_byte-IsValid byte env b (ap is_get_data e) h

pub parse_cmd-IsValid :
    (byte : ℕ) (env : ℕ → Readings) (b : Bridge)
    → byte < 256
    → IsValid b
    → OnSome IsValid (parse_cmd byte env b)
parse_cmd-IsValid byte env b hb h = parse_in-IsValid b.state byte env b refl hb h

-- What a byte read is: below 256, also after a timeout.
IsByte : ℕ × I2c → Type 0
IsByte (byte, s) = byte < 256

Anything : I2c → Type 0
Anything s = Unit

OnSome-Anything : (o : Option I2c) → OnSome Anything o
unfolding Anything
OnSome-Anything none = tt
OnSome-Anything (some s) = tt

finished-IsByte :
    (nack : Bool) (r : Readings) (o : Option (ℕ × I2c)) → OnSome IsByte (finished nack r o)
unfolding IsByte
finished-IsByte nack r none = tt
finished-IsByte nack r (some (byte, s)) =
    if_both {A = Option (ℕ × I2c)} (OnSome IsByte) s.internal_timeout_occurred (omega arith) (
      unless_timed_out-OnSome IsByte Anything (λ s. (0, s)) (λ s. some (u8 byte, s))
        (write_bit nack r s) (OnSome-Anything (write_bit nack r s)) (λ s u e. omega arith)
        (λ s u e. omega arith))

responds-IsValid : (b : Bridge) → IsValid b → IsValid (record b { return_response = true })
responds-IsValid b h = record {
  errors = h.errors;
  response = h.response;
  length = h.length;
  counts = h.counts;
}

note_read-IsValid :
    (b : Bridge) (o : Option (ℕ × I2c))
    → Valid true b
    → OnSome IsByte o
    → OnSome IsValid (note_read b o)
unfolding IsByte
note_read-IsValid b none h byte = tt
note_read-IsValid b (some (byte, s)) (h, e) hb =
    let counted : Bridge → Bridge = λ b. record (count_down b) { return_response = true } in
    if_both {A = Bridge} (λ b. IsValid (counted b)) s.timeout_occurred
      (responds-IsValid _ (
        count_down-IsValid
          (record (flag err_i2c_timeout b) {
            response = 0;
            i2c = record s { timeout_occurred = false };
          })
          e
          (record {
            errors = bit_or-< 4 b.errors (omega arith) h.errors;
            response = omega arith;
            length = h.length;
            counts = h.counts;
          })))
      (responds-IsValid _ (
        count_down-IsValid (record b { response = byte; i2c = s }) e
          (record { errors = h.errors; response = hb; length = h.length; counts = h.counts })))

pub i2c_read-IsValid :
    (env : ℕ → Readings) (b : Bridge)
    → is_get_data b.state ≡ true
    → IsValid b
    → OnSome IsValid (i2c_read env b)
unfolding i2c_read read_byte
i2c_read-IsValid env b e h =
    note_read-IsValid b _ (h, e) (finished-IsByte (b.data_length == 1) (env 8) _)
