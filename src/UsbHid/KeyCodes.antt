-- ===== src/UsbHid/KeyCodes.antt =====
-- The key codes of the ASCII characters against the order of the HID usage tables.
use wixel_sdk.Base.{ℕ, ◌+◌, ◌≤◌, ◌<◌, ◌≡◌, refl, Bool, true, ◌&&◌, ◌||◌, arith, ◌==◌, ltb}
use wixel_sdk.Base.Bits.{all_below, all_below-test}
use wixel_sdk.UsbHid.{key_code_from_ascii_char}

abbrev in_order : ℕ → Bool
in_order i =
    key_code_from_ascii_char (97 + i) == 4 + i && key_code_from_ascii_char (65 + i) == 4 + i

in_order_test : all_below 26 in_order ≡ true
unfolding all_below key_code_from_ascii_char
in_order_test = refl

-- The letters have the key codes from 4 on in the order of the alphabet, in lower case as in upper case.
pub key_code_from_ascii_char-letters :
    (i : ℕ)
    → i < 26
    → (key_code_from_ascii_char (97 + i) ≡ 4 + i) × (key_code_from_ascii_char (65 + i) ≡ 4 + i)
key_code_from_ascii_char-letters i h = ground (arith, all_below-test in_order 26 h in_order_test)

abbrev has_key : ℕ → Bool
has_key c = ltb c 32 || c == 127 || ltb 0 (key_code_from_ascii_char c)

has_key_test : all_below 128 has_key ≡ true
unfolding all_below key_code_from_ascii_char
has_key_test = refl

-- Every printable character has a key code.
pub key_code_from_ascii_char-printable : (c : ℕ) → 32 ≤ c → c < 127 → 0 < key_code_from_ascii_char c
key_code_from_ascii_char-printable c lo hi =
    ground (arith, all_below-test has_key 128 {x = c} (omega arith) has_key_test, lo, hi)
