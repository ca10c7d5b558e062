-- ===== src/Packet.antt =====
-- libraries/src/packet/packet.c: fields of a five-byte packet, read as a string of 40 bits, first bit
-- first. Bytes are their bit patterns; `signed` says whether the compiler's `char` is signed, which
-- shows when a byte is widened to 16 bits.
pub mod Fields
use wixel_sdk.Base.{
  ℕ, ◌+◌, ◌-◌, ◌*◌, ◌/◌, ◌%◌, ◌^◌, Bool, true, false, ◌&&◌, ◌||◌, not, List, [], if◌then◌else◌,
  ◌==◌, ltb, leb, u8, u16, bit_and, bit_or, get_or, set,
}

abbrev pub tuple_size : ℕ
tuple_size = 5

-- The globals `i` and `packet`.
pub record Reader : Type 0 where
  pub i : ℕ
  pub bytes : List ℕ

-- `checkHeader`
unfoldable pub check_header : ℕ → Reader → Bool × Reader
check_header header r =
    if bit_and header 0xFC == 0xFC
    then (true, record { i = 0; bytes = set r.bytes 0 header })
    else (false, r)

abbrev shl : ℕ → ℕ → ℕ
shl x k = x * 2 ^ k

abbrev shr : ℕ → ℕ → ℕ
shr x k = x / 2 ^ k

-- A `char` in 16 bits.
abbrev pub widen : Bool → ℕ → ℕ
widen signed b = if signed && leb 128 b then b + 65280 else b

-- `read1byte`
unfoldable pub read_1_byte : ℕ → ℕ → List ℕ → ℕ
read_1_byte pos len bytes =
    let rel = pos % 8 in
    let first = get_or bytes (shr pos 3) 0 in
    let second = get_or bytes (shr pos 3 + 1) 0 in
    if ltb 8 len
    then 0
    else (if ltb (tuple_size * 8) (pos + len)
        then 0
        else (if leb len (8 - rel)
            then bit_and (shr first (8 - (rel + len))) (shr 0xFF (8 - len))
            else bit_or (u8 (shl (bit_and first (shr 0xFF rel)) (len - (8 - rel))))
                (shr second (16 - len - rel))))

-- `read2byte`
unfoldable pub read_2_byte : Bool → ℕ → ℕ → List ℕ → ℕ
read_2_byte signed pos len bytes =
    let rel = pos % 8 in
    let first = get_or bytes (shr pos 3) 0 in
    let second = get_or bytes (shr pos 3 + 1) 0 in
    let third = get_or bytes (shr pos 3 + 2) 0 in
    if ltb 16 len || leb len 8
    then 0
    else (if ltb (tuple_size * 8) (pos + len)
        then 0
        else (let top = u16 (shl (bit_and (widen signed first) (shr 0xFF rel)) (len + rel - 8)) in
            if leb (len + rel) 16
            then bit_or top (shr second (16 - len - rel))
            else bit_or
                (bit_or top (u16 (shl (bit_and (widen signed second) 0xFF) (len + rel - 16))))
                (shr (bit_and third 0xFF) (8 - (pos + len) % 8))))

-- `readID`, `readY`, `readX` and `readR`
unfoldable pub read_id : List ℕ → ℕ
unfolding read_1_byte
read_id = read_1_byte 6 5

unfoldable pub read_y : Bool → List ℕ → ℕ
unfolding read_2_byte
read_y signed = read_2_byte signed 11 10

unfoldable pub read_x : Bool → List ℕ → ℕ
unfolding read_2_byte
read_x signed = read_2_byte signed 21 10

unfoldable pub read_r : Bool → List ℕ → ℕ
unfolding read_2_byte
read_r signed = read_2_byte signed 31 9
