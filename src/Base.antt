-- ===== src/Base.antt =====
-- The names that every module shares: the libraries' names passed on, Boolean tests on the native
-- numbers, C arrays as lists with native indices, and the wrap-around of the C integer types.
mod Tests
mod Arrays
mod Packets
pub mod Bits
pub mod Ring
pub use Tests.*
pub use Arrays.*
pub use Packets.*
pub use Prim.Native.Nat.{
  ℕ, zero, suc, ◌+◌, ◌-◌, ◌*◌, ◌/◌, ◌%◌, ◌^◌, ◌≤◌, ◌<◌, min, bit_and, bit_or, bit_xor,
}
pub use mathlib.Core.Path.{◌≡◌, refl, sym, ap, ap₂, ◌∙◌, subst}
pub use mathlib.Core.Logic.{◌≢◌, ◌↔◌, ◌⊎◌, inl, inr}
pub use mathlib.Core.Bool.{Bool, true, false, not, ◌&&◌, ◌||◌}
pub use mathlib.Core.Option.{Option, none, some}
pub use mathlib.Core.List.{List, [], ◌∷◌, ◌++◌, map, append-nil, append_assoc}
pub use native.Mathlib.Omega.{arith}
unfoldable pub use native.Mathlib.Decide.{dec_lt, ℕ_discrete}

-- `uint8` and `uint16` arithmetic; SDCC's `int` has 16 bits.
abbrev pub u8 : ℕ → ℕ
u8 n = n % 2 ^ 8

abbrev pub u16 : ℕ → ℕ
u16 n = n % 2 ^ 16

-- Truth of a C number.
abbrev pub truth : ℕ → Bool
truth n = not (n == 0)
