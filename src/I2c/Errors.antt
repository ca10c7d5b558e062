-- ===== src/I2c/Errors.antt =====
-- Timeouts: the wait for the clock ends, and what a timeout leaves for the next call.
use wixel_sdk.Base.{
  ℕ, ◌+◌, ◌-◌, ◌*◌, ◌/◌, ◌%◌, ◌^◌, ◌<◌, ◌≤◌, ◌≡◌, refl, sym, ap, ap₂, subst, ◌∙◌, Bool, true, false,
  List, [], ◌∷◌, ◌++◌, ◌⊎◌, inl, inr, if◌then◌else◌, some, if◌then◌else◌, arith, ltb, if_both,
}
use native.Mathlib.Nat.{div-mul-le_self, lt-div-mul-add, div-lt_iff_lt-mul}
use wixel_sdk.I2c.{
  I2c, read_scl, times_out, read_sda, Readings, wait_for_high_scl, call, half_period, start, waits,
  set_frequency,
}
use wixel_sdk.I2c.Bus.{Bus, bus, OnSome, unless_timed_out-OnSome, OnSome-elim}

-- The readings of the pins at a clock that counts milliseconds: `k` after the start `time`.
abbrev pub after_start : ℕ → List (Bool × ℕ) → List (Bool × ℕ)
after_start time [] = []
after_start time ((high, k) ∷ polls) = (high, (time + k) % 2 ^ 32) ∷ after_start time polls

-- The clock line is low, and the timeout is not over, at each reading.
abbrev pub Waits : ℕ → List (Bool × ℕ) → Type 0
Waits ms [] = Unit
Waits ms ((high, k) ∷ polls) = ((high ≡ false) × (k ≤ ms) × (k < 2 ^ 32)) × Waits ms polls

-- One reading of the clock line for each of these, which found it low
abbrev pub low_reads : List (Bool × ℕ) → I2c → I2c
low_reads [] s = s
low_reads (p ∷ polls) s = low_reads polls (call (read_scl false) s)

elapsed_lem :
    (time k : ℕ) → time < 2 ^ 32 → k < 2 ^ 32 → ((time + k) % 2 ^ 32 + 2 ^ 32 - time) % 2 ^ 32 ≡ k
elapsed_lem time k ht hk = omega arith

ltb-true : (m n : ℕ) → m < n → ltb m n ≡ true
ltb-true m n h = ground (arith, h)

ltb-false : (m n : ℕ) → n ≤ m → ltb m n ≡ false
ltb-false m n h = ground (arith, h)

-- The wait goes on while the clock line is low and at most `timeout` milliseconds have passed, also when the
-- clock's count wraps around, and ends at the first reading that is otherwise. If the clock is high then, the
-- wait has only read it; if not, both flags of a timeout are set, and no start is remembered.
pub wait_for_high_scl_lem :
    (ms time : ℕ) (early rest : List (Bool × ℕ)) (high : Bool) (k : ℕ) (s : I2c)
    → time < 2 ^ 32
    → Waits ms early
    → k < 2 ^ 32
    → (high ≡ true) ⊎ (ms < k)
    → wait_for_high_scl ms time (after_start time (early ++ (high, k) ∷ rest)) s
      ≡ some (
          if high
          then call (read_scl true) (low_reads early s)
          else record (call (read_scl false) (low_reads early s)) {
            internal_timeout_occurred = true;
            timeout_occurred = true;
            started = false;
          })
unfolding wait_for_high_scl
wait_for_high_scl_lem ms time [] rest true k s ht w hk ends = refl
wait_for_high_scl_lem ms time [] rest false k s ht w hk (inl e) = absurd (ground (arith, e))
wait_for_high_scl_lem ms time [] rest false k s ht w hk (inr late) =
    let s' = call (read_scl false) s in
    ap
      (λ c. if c then some (times_out s') else wait_for_high_scl ms time (after_start time rest) s')
      {x = ltb ms (((time + k) % 2 ^ 32 + 2 ^ 32 - time) % 2 ^ 32)} {y = true}
      (ap (ltb ms) (elapsed_lem time k ht hk) ∙ ltb-true ms k late)
wait_for_high_scl_lem ms time ((true, j) ∷ early) rest high k s ht w hk ends =
    absurd (ground (arith, w.0.0))
wait_for_high_scl_lem ms time ((false, j) ∷ early) rest high k s ht w hk ends =
    let s' = call (read_scl false) s in
    let polls = after_start time (early ++ (high, k) ∷ rest) in
    ap (λ c. if c then some (times_out s') else wait_for_high_scl ms time polls s')
      {x = ltb ms (((time + j) % 2 ^ 32 + 2 ^ 32 - time) % 2 ^ 32)} {y = false}
      (ap (ltb ms) (elapsed_lem time j ht w.0.2) ∙ ltb-false ms j w.0.1)
    ∙ wait_for_high_scl_lem ms time early rest high k s' ht w.1 hk ends

-- The flag of a timeout is set, no start is remembered, and the master's data line is as given.
record Stuck (d : Bool) (s : I2c) : Type 0 where
  flag : s.internal_timeout_occurred ≡ true
  forgets : s.started ≡ false
  data_line : (bus s.calls).sda ≡ d

read_scl-Stuck : (d level : Bool) (s : I2c) → Stuck d s → Stuck d (call (read_scl level) s)
unfolding bus
read_scl-Stuck d true s h = record {
  flag = h.flag;
  forgets = h.forgets;
  data_line = if_both {A = Bus} (λ b. b.sda ≡ d) (bus s.calls).scl h.data_line h.data_line;
}
read_scl-Stuck d false s h = record { flag = h.flag; forgets = h.forgets; data_line = h.data_line }

wait-Stuck :
    (ms time : ℕ) (polls : List (Bool × ℕ)) (d : Bool) (s : I2c)
    → Stuck d s
    → OnSome (Stuck d) (wait_for_high_scl ms time polls s)
unfolding wait_for_high_scl
wait-Stuck ms time [] d s h = tt
wait-Stuck ms time ((true, now) ∷ polls) d s h = read_scl-Stuck d true s h
wait-Stuck ms time ((false, now) ∷ polls) d s h =
    let s' = call (read_scl false) s in
    let h' = read_scl-Stuck d false s h in
    if_both (OnSome (Stuck d)) (ltb ms ((now + 2 ^ 32 - time) % 2 ^ 32))
      (record { flag = refl; forgets = refl; data_line = h'.data_line })
      (wait-Stuck ms time polls d s' h')

-- A start after a call that timed out, with no byte written or read between them, makes no start
-- condition even if the clock is high: the data line stays as it was, and no start is remembered.
pub start-after_timeout :
    (r : Readings) (s : I2c) {s' : I2c}
    → s.internal_timeout_occurred ≡ true
    → s.started ≡ false
    → start r s ≡ some s'
    → (s'.internal_timeout_occurred ≡ true)
      × (s'.started ≡ false)
      × ((bus s'.calls).sda ≡ (bus s.calls).sda)
unfolding start
start-after_timeout r s flag st e =
    let d = (bus s.calls).sda in
    let waited =
      subst (λ c. OnSome (Stuck d) (waits r (if c then half_period (call read_sda s) else s)))
        (sym st)
        (wait-Stuck s.timeout r.start r.polls d s
          (record { flag = flag; forgets = st; data_line = refl })) in
    let h : Stuck d _ =
      OnSome-elim (Stuck d)
        (unless_timed_out-OnSome (Stuck d) (Stuck d) (λ s. s) _ _ waited (λ s q f. q)
          (λ s q f. absurd (ground (arith, sym q.flag ∙ f))))
        e in
    (h.flag, h.forgets, h.data_line)

half_period-div :
    (f : ℕ) (s : I2c) → 2 ≤ f → f ≤ 65036 → (set_frequency f s).half_period_us ≡ (499 + f) / f
unfolding set_frequency
half_period-div f s lo hi = ap₂ ◌/◌ (ground (arith, lo, hi)) (ground (arith, lo))

-- The clock's half period is at most 250 microseconds, and long enough that the frequency is at most the one
-- chosen, up to 65036 kHz.
pub set_frequency-bounds :
    (freq_khz : ℕ) (s : I2c)
    → 2 ≤ freq_khz
    → freq_khz ≤ 65036
    → let half = (set_frequency freq_khz s).half_period_us in
      (500 ≤ half * freq_khz) × (half * freq_khz < 500 + freq_khz) × (half ≤ 250)
set_frequency-bounds f s lo hi =
    let half = (499 + f) / f in
    let e = half_period-div f s lo hi in
    let under = div-mul-le_self (499 + f) f in
    let over : 499 + f < half * f + f = lt-div-mul-add (omega (arith, lo)) in
    let most : half < 251 =
      (div-lt_iff_lt-mul {k = f} {x = (499 + f)} {y = 251} (omega (arith, lo))).1
        (omega (arith, lo)) in
    (ground (arith, e, over), ground (arith, e, under), ground (arith, e, most))
