-- ===== src/I2c/Bus.antt =====
-- The bus as a listener sees it, and what one bit does to it.
use wixel_sdk.Base.{
  ℕ, ◌+◌, ◌-◌, ◌^◌, ◌%◌, ◌≡◌, refl, sym, ap, subst, ◌∙◌, Bool, true, false, not, List, [], ◌∷◌,
  Option, none, some, if◌then◌else◌, ltb, arith, ◌&&◌, ◌⊎◌, inl, inr, if_cases, if_both,
}
use wixel_sdk.I2c.{
  I2c, Call, read_scl, read_sda, clear_scl, clear_sda, delay, Readings, wait_for_high_scl, call,
  half_period, write_bit, read_bit, start, stop, unless_timed_out, waits,
}

-- A bit on the data line at a rising clock; a change of the data line while the clock is high.
pub data Signal : Type 0 where
  clocked : Bool → Signal
  start_condition stop_condition : Signal

-- The clock line, the master's data line, and the signals so far, the newest first.
pub record Bus : Type 0 where
  pub scl : Bool
  pub sda : Bool
  pub signals : List Signal

abbrev observe : Call → Bus → Bus
observe (read_scl true) b =
    if b.scl then b else record b { scl = true; signals = clocked b.sda ∷ b.signals }
observe (read_scl false) b = record b { scl = false }
observe clear_scl b = record b { scl = false }
observe read_sda b = record b {
  sda = true;
  signals = if b.scl && not b.sda then stop_condition ∷ b.signals else b.signals;
}
observe clear_sda b = record b {
  sda = false;
  signals = if b.scl && b.sda then start_condition ∷ b.signals else b.signals;
}
observe (delay us) b = b

unfoldable pub bus : List Call → Bus
bus [] = record { scl = true; sda = true; signals = [] }
bus (c ∷ cs) = observe c (bus cs)

-- What holds of a result, if there is one.
abbrev pub OnSome {ℓ κ} : {A : Type ℓ} → (A → Type κ) → Option A → Type κ
OnSome P none = Unit
OnSome P (some a) = P a

pub OnSome-elim {ℓ κ} :
    {A : Type ℓ} (P : A → Type κ) {o : Option A} {a : A} → OnSome P o → o ≡ some a → P a
OnSome-elim P h e = subst (OnSome P) e h

pub unless_timed_out-OnSome {ℓ κ} :
    {R : Type ℓ} (P : R → Type κ) (Q : I2c → Type 0) (early : I2c → R) (more : I2c → Option R)
    (o : Option I2c)
    → OnSome Q o
    → ((s : I2c) → Q s → s.internal_timeout_occurred ≡ true → P (early s))
    → ((s : I2c) → Q s → s.internal_timeout_occurred ≡ false → OnSome P (more s))
    → OnSome P (unless_timed_out early more o)
unless_timed_out-OnSome P Q early more none q h k = tt
unless_timed_out-OnSome P Q early more (some s) q h k =
    if_cases (OnSome P) s.internal_timeout_occurred (some (early s)) (more s) (h s q) (k s q)

-- No timeout in this call so far; whether a start is remembered, and the bus.
pub record At (started : Bool) (b : Bus) (s : I2c) : Type 0 where
  pub in_time : s.internal_timeout_occurred ≡ false
  pub remembers : s.started ≡ started
  pub line : bus s.calls ≡ b

-- The call has ended by a timeout: both flags are set, and no start is remembered.
pub record Fails (s : I2c) : Type 0 where
  pub timed_out : s.internal_timeout_occurred ≡ true
  pub reported : s.timeout_occurred ≡ true
  pub forgets : s.started ≡ false

abbrev pub Ends : Bool → Bus → I2c → Type 0
Ends started b s = At started b s ⊎ Fails s

abbrev pub low : Bool → List Signal → Bus
low sda signals = record { scl = false; sda = sda; signals = signals }

abbrev pub high : Bool → List Signal → Bus
high sda signals = record { scl = true; sda = sda; signals = signals }

-- A wait with the clock low ends with a rising clock or by a timeout.
pub wait-Ends :
    (ms time : ℕ) (polls : List (Bool × ℕ)) (st d : Bool) (sigs : List Signal) (s : I2c)
    → At st (low d sigs) s
    → OnSome (Ends st (high d (clocked d ∷ sigs))) (wait_for_high_scl ms time polls s)
unfolding wait_for_high_scl bus
wait-Ends ms time [] st d sigs s h = tt
wait-Ends ms time ((true, now) ∷ polls) st d sigs s h = inl (record {
  in_time = h.in_time;
  remembers = h.remembers;
  line = ap (observe (read_scl true)) h.line;
})
wait-Ends ms time ((false, now) ∷ polls) st d sigs s h =
    if_both (OnSome (Ends st (high d (clocked d ∷ sigs)))) (ltb ms ((now + 2 ^ 32 - time) % 2 ^ 32))
      (inr (record { timed_out = refl; reported = refl; forgets = refl }))
      (wait-Ends ms time polls st d sigs (call (read_scl false) s) (record {
        in_time = h.in_time;
        remembers = h.remembers;
        line = ap (observe (read_scl false)) h.line;
      }))

-- The rest of a call after one that may time out.
pub after_call {ℓ κ} :
    {R : Type ℓ} (P : R → Type κ) (st : Bool) (b : Bus) (early : I2c → R) (more : I2c → Option R)
    (o : Option I2c)
    → OnSome (Ends st b) o
    → ((s : I2c) → Fails s → P (early s))
    → ((s : I2c) → At st b s → OnSome P (more s))
    → OnSome P (unless_timed_out early more o)
after_call P st b early more o ends fails goes =
    unless_timed_out-OnSome P (Ends st b) early more o ends
      (λ s q e. elim q [ inl at ↦ absurd (ground (arith, sym at.in_time ∙ e)) | inr f ↦ fails s f ])
      (λ s q e. elim q [
        | inl at ↦ goes s at
        | inr f ↦ absurd (ground (arith, sym f.timed_out ∙ e))
      ])

call-At : (c : Call) (st : Bool) (b : Bus) (s : I2c) → At st b s → At st (observe c b) (call c s)
unfolding bus
call-At c st b s h = record {
  in_time = h.in_time;
  remembers = h.remembers;
  line = ap (observe c) h.line;
}

-- A bit written with the clock low puts the bit on the bus, without a start or stop condition.
pub write_bit-Ends :
    (b : Bool) (r : Readings) (st d : Bool) (sigs : List Signal) (s : I2c)
    → At st (low d sigs) s
    → OnSome (Ends st (low b (clocked b ∷ sigs))) (write_bit b r s)
unfolding write_bit
write_bit-Ends true r st d sigs s h =
    after_call (Ends st (low true (clocked true ∷ sigs))) st (high true (clocked true ∷ sigs)) _ _ _
      (wait-Ends s.timeout r.start r.polls st true sigs _ (
        call-At (delay s.half_period_us) st (low true sigs) _
          (call-At read_sda st (low d sigs) s h)))
      (λ s f. inr f)
      (λ s at. inl (call-At clear_scl st _ _ (call-At (delay s.half_period_us) st _ s at)))
write_bit-Ends false r st d sigs s h =
    after_call (Ends st (low false (clocked false ∷ sigs))) st (high false (clocked false ∷ sigs)) _
      _ _
      (wait-Ends s.timeout r.start r.polls st false sigs _ (
        call-At (delay s.half_period_us) st (low false sigs) _
          (call-At clear_sda st (low d sigs) s h)))
      (λ s f. inr f)
      (λ s at. inl (call-At clear_scl st _ _ (call-At (delay s.half_period_us) st _ s at)))

-- A bit read leaves the data line to the slave while the clock is high; what is returned is what the
-- slave shows then, or 0 after a timeout.
abbrev pub Reads : Bool → Bool → Bus → Bool × I2c → Type 0
Reads shown st b (bit, s) = ((bit ≡ shown) × At st b s) ⊎ ((bit ≡ false) × Fails s)

pub read_bit-Reads :
    (r : Readings) (st d : Bool) (sigs : List Signal) (s : I2c)
    → At st (low d sigs) s
    → OnSome (Reads r.sda st (low true (clocked true ∷ sigs))) (read_bit r s)
unfolding read_bit
read_bit-Reads r st d sigs s h =
    after_call (Reads r.sda st (low true (clocked true ∷ sigs))) st
      (high true (clocked true ∷ sigs)) _ _ _
      (wait-Ends s.timeout r.start r.polls st true sigs _ (
        call-At (delay s.half_period_us) st (low true sigs) _
          (call-At read_sda st (low d sigs) s h)))
      (λ s f. inr (refl, f))
      (λ s at. inl (
        refl,
        call-At clear_scl st (high true (clocked true ∷ sigs)) _
            (call-At (delay s.half_period_us) st _ _ (call-At read_sda st _ s at)),
      ))

-- A stop lets the clock rise with the data line low, then lets the data line rise.
pub stop-Ends :
    (r : Readings) (st d : Bool) (sigs : List Signal) (s : I2c)
    → At st (low d sigs) s
    → OnSome (Ends false (high true (stop_condition ∷ clocked false ∷ sigs))) (stop r s)
unfolding stop bus
stop-Ends r st d sigs s h =
    after_call (Ends false (high true (stop_condition ∷ clocked false ∷ sigs))) st
      (high false (clocked false ∷ sigs)) _ _ _
      (wait-Ends s.timeout r.start r.polls st false sigs _ (
        call-At (delay s.half_period_us) st (low false sigs) _
          (call-At clear_sda st (low d sigs) s h)))
      (λ s f. inr f)
      (λ s at.
        inl
          (record { in_time = at.in_time; remembers = refl; line = ap (observe read_sda) at.line }))

-- A start while one is remembered is a repeated start.
pub repeated_start-Ends :
    (r : Readings) (d : Bool) (sigs : List Signal) (s : I2c)
    → At true (low d sigs) s
    → OnSome (Ends true (low false (start_condition ∷ clocked true ∷ sigs))) (start r s)
unfolding start bus
repeated_start-Ends r d sigs s h =
    after_call (Ends true (low false (start_condition ∷ clocked true ∷ sigs))) true
      (high true (clocked true ∷ sigs)) _ _ _
      (subst
        (λ c.
          OnSome (Ends true (high true (clocked true ∷ sigs)))
            (waits r (if c then half_period (call read_sda s) else s)))
        (sym h.remembers)
        (wait-Ends s.timeout r.start r.polls true true sigs _ (
          call-At (delay s.half_period_us) true (low true sigs) _
            (call-At read_sda true (low d sigs) s h))))
      (λ s f. inr f)
      (λ s at. inl (record {
        in_time = at.in_time;
        remembers = refl;
        line = ap (λ b. observe clear_scl (observe clear_sda b)) at.line;
      }))
