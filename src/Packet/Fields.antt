-- ===== src/Packet/Fields.antt =====
-- The readers against the packet as one number of 40 bits.
use wixel_sdk.Base.{
  ℕ, ◌+◌, ◌*◌, ◌/◌, ◌%◌, ◌^◌, ◌<◌, ◌≡◌, refl, ap₂, ◌∙◌, Bool, true, false, List, [], ◌∷◌, arith,
  ==_iff, bit_and, bit_or, ◌==◌, if◌then◌else◌, ltb, leb, set,
}
use wixel_sdk.Base.Bits.{all_below, all_below-test, bit_and_1, bit_and_3, bit_and_7, bit_and_31}
use wixel_sdk.Packet.{Reader, check_header, read_id, read_y, read_x, read_r, widen}

-- An or of a high part and a low part that do not overlap is their sum.
join_3_table : all_below 32 (λ n. bit_or (n / 8 * 8) (n % 8) == n) ≡ true
unfolding all_below
join_3_table = refl

join_5_table : all_below 1024 (λ n. bit_or (n / 32 * 32) (n % 32) == n) ≡ true
unfolding all_below
join_5_table = refl

join_7_table : all_below 1024 (λ n. bit_or (n / 128 * 128) (n % 128) == n) ≡ true
unfolding all_below
join_7_table = refl

join_8_table : all_below 512 (λ n. bit_or (n / 256 * 256) (n % 256) == n) ≡ true
unfolding all_below
join_8_table = refl

join :
    (size k : ℕ)
    → all_below size (λ n. bit_or (n / k * k) (n % k) == n) ≡ true
    → (n a b : ℕ) → n < size
    → a ≡ n / k * k
    → b ≡ n % k
    → bit_or a b ≡ n
join size k table n a b h ea eb = ap₂ bit_or ea eb ∙ (==_iff _ n).0 (all_below-test _ size h table)

-- The packet as a number: its first byte is the most significant.
abbrev pub value : ℕ → ℕ → ℕ → ℕ → ℕ → ℕ
value a b c d e = a * 2 ^ 32 + b * 2 ^ 24 + c * 2 ^ 16 + d * 2 ^ 8 + e

-- Masking removes what widening a signed `char` adds.
widen_31 : (signed : Bool) (b : ℕ) → bit_and (widen signed b) 31 ≡ b % 32
widen_31 signed b = ground (arith, bit_and_31 b, bit_and_31 (b + 65280))

widen_7 : (signed : Bool) (b : ℕ) → bit_and (widen signed b) 7 ≡ b % 8
widen_7 signed b = ground (arith, bit_and_7 b, bit_and_7 (b + 65280))

widen_1 : (signed : Bool) (b : ℕ) → bit_and (widen signed b) 1 ≡ b % 2
widen_1 signed b = ground (arith, bit_and_1 b, bit_and_1 (b + 65280))

abbrev Bytes : ℕ → ℕ → ℕ → ℕ → ℕ → Type 0
Bytes a b c d e = (a < 256) × (b < 256) × (c < 256) × (d < 256) × (e < 256)

-- Whatever the sign of `char`, the four readers return bits 6 to 10, 11 to 20, 21 to 30 and 31 to 39
-- of the packet, counted from its first bit.
pub readers_lem :
    (signed : Bool) (a b c d e : ℕ)
    → Bytes a b c d e
    → let bytes = a ∷ b ∷ c ∷ d ∷ e ∷ [] in
      (read_id bytes ≡ value a b c d e / 2 ^ 29 % 2 ^ 5)
      × (read_y signed bytes ≡ value a b c d e / 2 ^ 19 % 2 ^ 10)
      × (read_x signed bytes ≡ value a b c d e / 2 ^ 9 % 2 ^ 10)
      × (read_r signed bytes ≡ value a b c d e % 2 ^ 9)
unfolding read_id read_y read_x read_r
readers_lem signed a b c d e h = (
  join 32 8 join_3_table (value a b c d e / 2 ^ 29 % 2 ^ 5) _ _ (omega arith)
      (omega (arith, bit_and_3 a)) (omega arith),
  join 1024 32 join_5_table (value a b c d e / 2 ^ 19 % 2 ^ 10) _ _ (omega arith)
      (omega (arith, widen_31 signed b)) (omega arith),
  join 1024 128 join_7_table (value a b c d e / 2 ^ 9 % 2 ^ 10) _ _ (omega arith)
      (omega (arith, widen_7 signed c)) (omega arith),
  join 512 256 join_8_table (value a b c d e % 2 ^ 9) _ _ (omega arith)
      (omega (arith, widen_1 signed d)) (omega arith),
)

-- A packet made of its header and the four fields.
pub packed : ℕ → ℕ → ℕ → ℕ → List ℕ
packed id y x r =
    let n = 63 * 2 ^ 34 + id * 2 ^ 29 + y * 2 ^ 19 + x * 2 ^ 9 + r in
    (n / 2 ^ 32) ∷ (n / 2 ^ 24 % 256) ∷ (n / 2 ^ 16 % 256) ∷ (n / 2 ^ 8 % 256) ∷ (n % 256) ∷ []

-- Fields that fit come back from the packet made of them.
pub packed_fields :
    (signed : Bool) (id y x r : ℕ)
    → id < 2 ^ 5
    → y < 2 ^ 10
    → x < 2 ^ 10
    → r < 2 ^ 9
    → (read_id (packed id y x r) ≡ id)
      × (read_y signed (packed id y x r) ≡ y)
      × (read_x signed (packed id y x r) ≡ x)
      × (read_r signed (packed id y x r) ≡ r)
unfolding packed
packed_fields signed id y x r hi hy hx hr =
    (fields.0 ∙ omega arith, fields.1 ∙ omega arith, fields.2 ∙ omega arith, fields.3 ∙ omega arith)
  where
    n : ℕ
    n = 63 * 2 ^ 34 + id * 2 ^ 29 + y * 2 ^ 19 + x * 2 ^ 9 + r

    same : value (n / 2 ^ 32) (n / 2 ^ 24 % 256) (n / 2 ^ 16 % 256) (n / 2 ^ 8 % 256) (n % 256) ≡ n
    same = omega arith

    fields :
        (read_id (packed id y x r) ≡ n / 2 ^ 29 % 2 ^ 5)
        × (read_y signed (packed id y x r) ≡ n / 2 ^ 19 % 2 ^ 10)
        × (read_x signed (packed id y x r) ≡ n / 2 ^ 9 % 2 ^ 10)
        × (read_r signed (packed id y x r) ≡ n % 2 ^ 9)
    fields = rw (same) at (
        readers_lem signed (n / 2 ^ 32) (n / 2 ^ 24 % 256) (n / 2 ^ 16 % 256) (n / 2 ^ 8 % 256)
          (n % 256) (omega arith))

header_table : all_below 256 (λ h. if bit_and h 0xFC == 0xFC then leb 252 h else ltb h 252) ≡ true
unfolding all_below
header_table = refl

-- A byte is taken for a header exactly if its six leading bits are ones; it is then stored as the
-- first byte and the index reset, and otherwise nothing changes.
pub check_header_lem :
    (h : ℕ) (r : Reader)
    → h < 256
    → check_header h r
      ≡ (if leb 252 h then (true, record { i = 0; bytes = set r.bytes 0 h }) else (false, r))
unfolding check_header
check_header_lem h r lt = ground (arith, all_below-test _ 256 lt header_table)
