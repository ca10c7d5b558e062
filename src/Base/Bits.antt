-- ===== src/Base/Bits.antt =====
-- Bit masks at variables, each as a remainder, and facts about all numbers below a bound by
-- evaluation.
use Prim.Native.Nat.{
  ℕ, zero, suc, ◌+◌, ◌*◌, ◌/◌, ◌%◌, ◌<◌, ◌≤◌, min, bit_and, digits, bit_and-bitwise,
}
use mathlib.Core.Path.{◌≡◌, refl, sym, ap, ◌∙◌}
use mathlib.Core.Bool.{Bool, true, false}
use native.Mathlib.Omega.{arith}
use native.Mathlib.Decide.{ℕ_discrete}
use wixel_sdk.Base.Tests.{if◌then◌else◌}

-- A test that holds of every number below a bound.
unfoldable pub all_below : ℕ → (ℕ → Bool) → Bool
all_below zero test = true
all_below (suc n) test = let smaller = all_below n test in if test n then smaller else false

pub all_below-test :
    (test : ℕ → Bool) (n : ℕ) {x : ℕ} → x < n → all_below n test ≡ true → test x ≡ true
unfolding all_below
all_below-test test zero h t = absurd (omega arith)
all_below-test test (suc n) {x} h t = elim (ℕ_discrete x n) [
  | yes e ↦ ap test e ∙ ground (arith)
  | no ne ↦ all_below-test test n (omega arith) (ground arith)
]

-- The lowest `k` binary digits of `bit_and a b`.
abbrev low_and : ℕ → ℕ → ℕ → ℕ
low_and zero a b = 0
low_and (suc k) a b = 2 * low_and k (a / 2) (b / 2) + min (a % 2) (b % 2)

abbrev shifted : ℕ → ℕ → ℕ
shifted zero b = b
shifted (suc k) b = shifted k (b / 2)

-- The recursion that `bit_and` stands for.
low_and-zero : (k b : ℕ) → low_and k 0 b ≡ 0
low_and-zero zero b = refl
low_and-zero (suc k) b = omega (arith, low_and-zero k (b / 2))

digits-low_and : (k a b : ℕ) → a ≤ k → digits (λ y. zero) min k a b ≡ low_and k a b
digits-low_and zero a b h = refl
digits-low_and (suc k) zero b h = sym (low_and-zero (suc k) b)
digits-low_and (suc k) (suc a) b h =
    omega (arith, digits-low_and k (suc a / 2) (b / 2) (omega arith))

-- No digit counts beyond those of the second number.
low_and-no_mask : (k a : ℕ) → low_and k a 0 ≡ 0
low_and-no_mask zero a = refl
low_and-no_mask (suc k) a = omega (arith, low_and-no_mask k (a / 2))

low_and-short : (k n a b : ℕ) → shifted k b ≡ 0 → a ≤ n → low_and n a b ≡ low_and k a b
low_and-short zero n a b small h = ap (low_and n a) small ∙ low_and-no_mask n a
low_and-short (suc k) zero a b small h =
    sym (ap (λ a. low_and (suc k) a b) {y = 0} (omega arith) ∙ low_and-zero (suc k) b)
low_and-short (suc k) (suc n) a b small h =
    omega (arith, low_and-short k n (a / 2) (b / 2) small (omega arith))

masked : (k a b : ℕ) → shifted k b ≡ 0 → bit_and a b ≡ low_and k a b
masked k a b small =
    bit_and-bitwise a b
    ∙ digits-low_and a a b (omega arith)
    ∙ low_and-short k a a b small (omega arith)

-- A mask of `k` ones is the remainder by `2 ^ k`.
pub bit_and_1 : (a : ℕ) → bit_and a 1 ≡ a % 2
bit_and_1 a = omega (arith, masked 1 a 1 refl)

pub bit_and_3 : (a : ℕ) → bit_and a 3 ≡ a % 4
bit_and_3 a = omega (arith, masked 2 a 3 refl)

pub bit_and_7 : (a : ℕ) → bit_and a 7 ≡ a % 8
bit_and_7 a = omega (arith, masked 3 a 7 refl)

pub bit_and_15 : (a : ℕ) → bit_and a 15 ≡ a % 16
bit_and_15 a = omega (arith, masked 4 a 15 refl)

pub bit_and_31 : (a : ℕ) → bit_and a 31 ≡ a % 32
bit_and_31 a = omega (arith, masked 5 a 31 refl)

pub bit_and_63 : (a : ℕ) → bit_and a 63 ≡ a % 64
bit_and_63 a = omega (arith, masked 6 a 63 refl)

pub bit_and_127 : (a : ℕ) → bit_and a 127 ≡ a % 128
bit_and_127 a = omega (arith, masked 7 a 127 refl)

-- The step that the widest mask takes.
halved_255 : (a : ℕ) → bit_and a 255 ≡ 2 * bit_and (a / 2) 127 + min (a % 2) 1
halved_255 a =
    masked 8 a 255 refl ∙ ap (λ d. 2 * d + min (a % 2) 1) (sym (masked 7 (a / 2) 127 refl))

pub bit_and_255 : (a : ℕ) → bit_and a 255 ≡ a % 256
bit_and_255 a = omega (arith, halved_255 a, bit_and_127 (a / 2))

-- Masks with zeros below their ones.
pub bit_and_24 : (a : ℕ) → bit_and a 24 ≡ a / 8 % 4 * 8
bit_and_24 a = omega (arith, masked 5 a 24 refl)

pub bit_and_8 : (a : ℕ) → bit_and a 8 ≡ a / 8 % 2 * 8
bit_and_8 a = omega (arith, masked 4 a 8 refl)

pub bit_and_16 : (a : ℕ) → bit_and a 16 ≡ a / 16 % 2 * 16
bit_and_16 a = omega (arith, masked 5 a 16 refl)

pub bit_and_30 : (a : ℕ) → bit_and a 30 ≡ a / 2 % 16 * 2
bit_and_30 a = omega (arith, masked 5 a 30 refl)
