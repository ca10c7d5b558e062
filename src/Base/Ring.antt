-- ===== src/Base/Ring.antt =====
-- The slots of a circular buffer from an index on, as a list: what the buffer holds, oldest first.
use Prim.Native.Nat.{ℕ, zero, suc, ◌+◌, ◌-◌, ◌%◌, ◌≤◌, ◌<◌}
use mathlib.Core.Path.{◌≡◌, refl, sym, ap, ap₂, ◌∙◌}
use mathlib.Core.Logic.{◌≢◌, ◌⊎◌, inl, inr}
use mathlib.Core.List.{List, [], ◌∷◌, ◌++◌, map}
use native.Mathlib.Nat.{mod-add-mod, mod-eq_of_lt, mod-eq-sub-mod, mod_self}
use native.Mathlib.Decide.{dec_lt, ℕ_discrete}
use native.Mathlib.Omega.{arith}
use wixel_sdk.Base.Tests.{leb, if◌then◌else◌}
use wixel_sdk.Base.Packets.{next_index}
use wixel_sdk.Base.Arrays.{length, get_or, set, set_out, get_or-set_self, get_or-set_ne}

module _ {ℓ} {A : Type ℓ} (d : A) (cap : ℕ) where
  -- The `n` slots from `h` on, round the end of the array; `h` need not be reduced.
  abbrev pub span : List A → ℕ → ℕ → List A
  span xs h zero = []
  span xs h (suc n) = get_or xs (h % cap) d ∷ span xs (h + 1) n

  pub length-span : (xs : List A) (h n : ℕ) → length (span xs h n) ≡ n
  length-span xs h zero = refl
  length-span xs h (suc n) = ap suc (length-span xs (h + 1) n)

  -- Only the index modulo the capacity counts.
  pub span-congr : (xs : List A) (n h k : ℕ) → h % cap ≡ k % cap → span xs h n ≡ span xs k n
  span-congr xs zero h k e = refl
  span-congr xs (suc n) h k e = ap₂ ◌∷◌ (ap (λ i. get_or xs i d) e) (
      span-congr xs n (h + 1) (k + 1)
        (sym (mod-add-mod h cap 1) ∙ ap (λ i. (i + 1) % cap) e ∙ mod-add-mod k cap 1))

  -- One slot more at the far end.
  pub span-snoc :
      (xs : List A) (n h : ℕ)
      → span xs h (suc n) ≡ span xs h n ++ (get_or xs ((h + n) % cap) d ∷ [])
  span-snoc xs zero h = ap (λ i. get_or xs (i % cap) d ∷ []) (omega arith)
  span-snoc xs (suc n) h = ap (◌∷◌ (get_or xs (h % cap) d)) (
      span-snoc xs n (h + 1)
      ∙ ap (λ i. span xs (h + 1) n ++ (get_or xs (i % cap) d ∷ [])) (omega arith))

  -- A write outside the span leaves it alone.
  pub span-set_ne :
      (xs : List A) (i : ℕ) (v : A) (n h : ℕ)
      → ((k : ℕ) → k < n → (h + k) % cap ≢ i)
      → span (set xs i v) h n ≡ span xs h n
  span-set_ne xs i v zero h out = refl
  span-set_ne xs i v (suc n) h out =
      ap₂ ◌∷◌
        (get_or-set_ne xs i (h % cap) v d
          (λ e. out 0 (omega arith) (ap (λ j. j % cap) (omega arith) ∙ sym e)))
        (span-set_ne xs i v n (h + 1)
          (λ k lt e. out (suc k) (omega arith) (ap (λ j. j % cap) (omega arith) ∙ e)))

  -- A write to the slot just past the span extends it.
  pub span-push :
      (xs : List A) (i : ℕ) (v : A) (n h : ℕ)
      → i ≡ (h + n) % cap
      → i < length xs
      → ((k : ℕ) → k < n → (h + k) % cap ≢ i)
      → span (set xs i v) h (suc n) ≡ span xs h n ++ (v ∷ [])
  span-push xs i v n h e lt out =
      span-snoc (set xs i v) n h
      ∙ ap₂ ◌++◌ (span-set_ne xs i v n h out)
          (ap (λ x. x ∷ []) (rw (← e) (get_or-set_self xs i v d lt)))

-- A ring between two indices below the capacity, as the code keeps them: it is empty where they are
-- equal.
abbrev pub gap : ℕ → ℕ → ℕ → ℕ
gap cap from to = if leb from to then to - from else to + cap - from

mod-wrap : (cap n : ℕ) → cap ≤ n → n < cap + cap → n % cap ≡ n - cap
mod-wrap cap n h k =
    mod-eq-sub-mod {n = n} {m = cap} h ∙ mod-eq_of_lt {n = n - cap} {m = cap} (omega arith)

-- `(from + k) % cap` for an index and a step below the capacity.
step_cases :
    (cap from k : ℕ)
    → from < cap
    → k ≤ cap
    → ((from + k < cap) × ((from + k) % cap ≡ from + k))
      ⊎ ((cap ≤ from + k) × ((from + k) % cap ≡ from + k - cap))
step_cases cap from k hf hk = elim (dec_lt (from + k) cap) [
  | yes p ↦ inl (p, mod-eq_of_lt p)
  | no p ↦ inr (omega arith, mod-wrap cap (from + k) (omega arith) (omega arith))
]

module _ {ℓ} {A : Type ℓ} (d : A) (cap : ℕ) where
  abbrev pub ring : List A → ℕ → ℕ → List A
  ring xs from to = span d cap xs from (gap cap from to)

  pub length-ring : (xs : List A) (from to : ℕ) → length (ring xs from to) ≡ gap cap from to
  length-ring xs from to = length-span d cap xs from (gap cap from to)

  -- Taking the oldest slot off.
  pub ring_pop :
      (xs : List A) (from to : ℕ)
      → from < cap
      → to < cap
      → from ≢ to
      → ring xs from to ≡ get_or xs from d ∷ ring xs (next_index cap from) to
  ring_pop xs from to hf ht ne =
      ap (span d cap xs from) counted
      ∙ ap₂ ◌∷◌ (ap (λ i. get_or xs i d) (mod-eq_of_lt hf)) (
          span-congr d cap xs (gap cap (next_index cap from) to) (from + 1) (next_index cap from)
            same)
    where
      counted : gap cap from to ≡ suc (gap cap (next_index cap from) to)
      counted = ground arith

      same : (from + 1) % cap ≡ next_index cap from % cap
      same = elim (ℕ_discrete from (cap - 1)) [
        | yes e ↦
            ap (λ n. n % cap) {y = cap} (omega arith)
            ∙ mod_self cap
            ∙ sym (mod-eq_of_lt {n = 0} {m = cap} (omega arith))
            ∙ ap (λ n. n % cap) {y = next_index cap from} (ground arith)
        | no other ↦ ap (λ n. n % cap) {y = next_index cap from} (ground arith)
      ]

  -- Making the slot at the far end part of the ring.
  pub ring_grow :
      (xs : List A) (from to : ℕ)
      → from < cap
      → to < cap
      → next_index cap to ≢ from
      → ring xs from (next_index cap to) ≡ ring xs from to ++ get_or xs to d ∷ []
  ring_grow xs from to hf ht ne =
      ap (span d cap xs from) {y = suc (gap cap from to)} (ground arith)
      ∙ span-snoc d cap xs (gap cap from to) from
      ∙ ap (λ i. ring xs from to ++ get_or xs i d ∷ []) last
    where
      last : (from + gap cap from to) % cap ≡ to
      last = ground (arith, step_cases cap from (gap cap from to) hf)

  -- The slot at the far end is not in the ring.
  pub ring-set_end :
      (xs : List A) (from to : ℕ) (v : A)
      → from < cap
      → to < cap
      → ring (set xs to v) from to ≡ ring xs from to
  ring-set_end xs from to v hf ht =
      span-set_ne d cap xs to v (gap cap from to) from
        λ k lt. ground (arith, step_cases cap from k hf)

  -- Writing the slot at the far end and making it part of the ring.
  pub ring_push :
      (xs : List A) (from to : ℕ) (v : A)
      → from < cap
      → to < cap
      → to < length xs
      → next_index cap to ≢ from
      → ring (set xs to v) from (next_index cap to) ≡ ring xs from to ++ v ∷ []
  ring_push xs from to v hf ht size ne =
      ring_grow (set xs to v) from to hf ht ne
      ∙ ap₂ ◌++◌ (ring-set_end xs from to v hf ht)
          (ap (λ x. x ∷ []) (get_or-set_self xs to v d size))

  -- A slot may change as long as what is read off it stays the same.
  pub ring_rewrite {κ} :
      {B : Type κ} (f : A → B) (xs : List A) (i : ℕ) (v : A) (from to : ℕ)
      → f v ≡ f (get_or xs i d)
      → map f (ring (set xs i v) from to) ≡ map f (ring xs from to)
  ring_rewrite f xs i v from to e = go (gap cap from to) from
    where
      read : (j : ℕ) → f (get_or (set xs i v) j d) ≡ f (get_or xs j d)
      read j = elim (ℕ_discrete i j) [
        | yes p ↦ elim (dec_lt i (length xs)) [
          | yes lt ↦
              ap (λ k. f (get_or (set xs i v) k d)) (sym p)
              ∙ ap f (get_or-set_self xs i v d lt)
              ∙ e
              ∙ ap (λ k. f (get_or xs k d)) p
          | no ge ↦ ap (λ ys. f (get_or ys j d)) (set_out xs i v (omega arith))
        ]
        | no ne ↦ ap f (get_or-set_ne xs i j v d ne)
      ]

      go : (n h : ℕ) → map f (span d cap (set xs i v) h n) ≡ map f (span d cap xs h n)
      go zero h = refl
      go (suc n) h = ap₂ ◌∷◌ (read (h % cap)) (go n (h + 1))
