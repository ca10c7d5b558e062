-- ===== src/Baud.antt =====
-- The baud rate computation that libraries/src/uart/core/uart.c and
-- libraries/src/spi_master/core/spi_master.c both hold: two halving loops and a scaled division.
-- A halving loop takes fuel; 32 rounds empty a `uint32`.
use wixel_sdk.Base.{
  ℕ, zero, suc, ◌+◌, ◌*◌, ◌/◌, ◌%◌, ◌^◌, ◌≤◌, ◌<◌, ◌≡◌, inl, inr, true, false, arith, ltb,
  Bool-cases,
}

-- `while (x > limit) { e++; x /= 2; }`, the counter a `uint8`.
unfoldable pub halve : ℕ → ℕ → ℕ → ℕ → ℕ × ℕ
halve zero limit x e = (x, e)
halve (suc fuel) limit x e = elim (ltb limit x) [
  | true ↦ halve fuel limit (x / 2) ((e + 1) % 2 ^ 8)
  | false ↦ (x, e)
]

-- `baudMPlus256` and `baudE` for a rate in range, in `uint32` arithmetic.
unfoldable pub baud_parts : ℕ → ℕ × ℕ
baud_parts baud =
    let (b, e) = halve 32 495782 baud 0 in
    halve 32 0x1ff ((b * 11 % 2 ^ 32 + b * 8663 % 2 ^ 32 / 46875) % 2 ^ 32) e

-- `v` doubled `d` times.
abbrev pub doubled : ℕ → ℕ → ℕ
doubled zero v = v
doubled (suc d) v = 2 * doubled d v

-- How a halving loop ends that counts from `e` and needs at most `k` rounds: its value is small, at
-- least any `low` of half the limit that `x` reaches, and is `x` shifted right as often as it counted.
record Halved (limit x e k low : ℕ) (r : ℕ × ℕ) : Type 0 where
  pub small : r.0 ≤ limit
  pub large : low ≤ r.0
  pub count : ℕ
  pub counted : r.1 ≡ e + count
  pub few : count ≤ k
  pub floor : doubled count r.0 ≤ x
  pub ceiling : x < doubled count (r.0 + 1)

halve_lem :
    (fuel limit x e k low : ℕ)
    → k < fuel
    → x < doubled k (limit + 1)
    → e + k < 256
    → low ≤ x
    → 2 * low ≤ limit + 1
    → Halved limit x e k low (halve fuel limit x e)
unfolding halve
halve_lem zero limit x e k low f b c l h = absurd (omega arith)
halve_lem (suc fuel) limit x e zero low f b c l h =
    let stop : ltb limit x ≡ false = ground arith in
    rw (stop, halve)
      (record {
        small = omega arith;
        large = l;
        count = 0;
        counted = omega arith;
        few = omega arith;
        floor = omega arith;
        ceiling = omega arith;
      })
halve_lem (suc fuel) limit x e (suc k) low f b c l h = elim (Bool-cases (ltb limit x)) [
  | inl go ↦
      let big : limit < x = ground arith in
      let wrap : (e + 1) % 2 ^ 8 ≡ e + 1 = omega arith in
      let r : Halved limit (x / 2) (e + 1) k low (halve fuel limit (x / 2) (e + 1)) =
        halve_lem fuel limit (x / 2) (e + 1) k low (omega arith) (omega arith) (omega arith)
          (omega arith) h in
      rw (go, halve, wrap)
        (record {
          small = r.small;
          large = r.large;
          count = suc r.count;
          counted = omega (arith, r.counted);
          few = omega (arith, r.few);
          floor = omega (arith, r.floor);
          ceiling = omega (arith, r.ceiling);
        })
  | inr stop ↦
      let le : x ≤ limit = ground arith in
      rw (stop, halve)
        (record {
          small = le;
          large = l;
          count = 0;
          counted = omega arith;
          few = omega arith;
          floor = omega arith;
          ceiling = omega arith;
        })
]

-- For a rate from 23 to 3000000 the parts fit their register fields: `baudMPlus256` lies between 256
-- and 511, and `baudE` is below 32.
pub baud_parts_fit :
    (baud : ℕ)
    → 23 ≤ baud
    → baud ≤ 3000000
    → (256 ≤ (baud_parts baud).0) × ((baud_parts baud).0 ≤ 511) × ((baud_parts baud).1 < 32)
unfolding baud_parts
baud_parts_fit baud lo hi = (
  omega (arith, second.large),
  omega (arith, second.small),
  omega (arith, first.counted, first.few, second.counted, second.few),
)
  where
    b : ℕ
    b = (halve 32 495782 baud 0).0

    e : ℕ
    e = (halve 32 495782 baud 0).1

    first : Halved 495782 baud 0 3 23 (halve 32 495782 baud 0)
    first =
        halve_lem 32 495782 baud 0 3 23 (omega arith) (omega arith) (omega arith) lo (omega arith)

    scaled : ℕ
    scaled = (b * 11 % 2 ^ 32 + b * 8663 % 2 ^ 32 / 46875) % 2 ^ 32

    second : Halved 0x1ff scaled e 14 256 (halve 32 0x1ff scaled e)
    second =
        halve_lem 32 0x1ff scaled e 14 256 (omega arith) (omega (arith, first.small))
          (omega (arith, first.counted, first.few)) (omega (arith, first.small, first.large))
          (omega arith)
