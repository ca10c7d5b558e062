-- ===== src/Base/Packets.antt =====
-- Arrays of packet buffers, and the step of a buffer index.
use Prim.Native.Nat.{ℕ, ◌+◌, ◌-◌, ◌<◌}
use mathlib.Core.List.{List, []}
use native.Mathlib.Omega.{arith}
use wixel_sdk.Base.Tests.{◌==◌, if◌then◌else◌}
use wixel_sdk.Base.Arrays.{get_or, set}

-- `packets[b][i]` and `packets[b][i] = v`
abbrev pub byte_of : List (List ℕ) → ℕ → ℕ → ℕ
byte_of packets b i = get_or (get_or packets b []) i 0

abbrev pub write_byte : List (List ℕ) → ℕ → ℕ → ℕ → List (List ℕ)
write_byte packets b i v = set packets b (set (get_or packets b []) i v)

-- `if (index == COUNT - 1) index = 0; else index++;`
abbrev pub next_index : ℕ → ℕ → ℕ
next_index count i = if i == count - 1 then 0 else i + 1

pub next_index-lt : (count i : ℕ) → i < count → next_index count i < count
next_index-lt count i h = ground arith
