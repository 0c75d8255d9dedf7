-- ===== src/Prelude/Words.antt =====
-- Machine words: conversions, little-endian bytes, and `i32` read off a `u32` bit pattern.
use Prim.Native.Nat.{ℕ, zero, suc, ◌+◌, ◌-◌, ◌*◌, ◌/◌, ◌%◌, ◌^◌, ◌<◌}
use mathlib.Core.Path.{◌≡◌}
use mathlib.Core.Bool.{Bool, true, false}
use mathlib.Core.List.{List, [], ◌∷◌}
use native.Mathlib.Omega.{arith}
use native.Mathlib.Nat.{pow-suc}
use pokedex.Prelude.Tests.{ltb, leb, if◌then◌else◌}
use pokedex.Prelude.Results.{u32_mod}

-- `as u32`, `as u16`, `as u8`
abbrev pub as_u32 : ℕ → ℕ
as_u32 n = n % u32_mod

abbrev pub as_u16 : ℕ → ℕ
as_u16 n = n % 65536

abbrev pub as_u8 : ℕ → ℕ
as_u8 n = n % 256

-- `from_le_bytes`
abbrev pub from_le_bytes : List ℕ → ℕ
from_le_bytes [] = 0
from_le_bytes (b ∷ bs) = b + 256 * from_le_bytes bs

-- `to_le_bytes` of a word of `n` bytes
abbrev pub to_le_bytes : ℕ → ℕ → List ℕ
to_le_bytes zero v = []
to_le_bytes (suc n) v = v % 256 ∷ to_le_bytes n (v / 256)

pub from_le_bytes-to_le_bytes : (n v : ℕ) → v < 256 ^ n → from_le_bytes (to_le_bytes n v) ≡ v
from_le_bytes-to_le_bytes zero v h = omega arith
from_le_bytes-to_le_bytes (suc n) v h =
    omega (arith, from_le_bytes-to_le_bytes n (v / 256) (omega (arith, pow-suc 256 n)))

-- `negsuc n` is -(n + 1).
pub data ℤ : Type 0 where
  pos : ℕ → ℤ
  negsuc : ℕ → ℤ

-- `as i32` of a `u32`, and back
abbrev pub as_i32 : ℕ → ℤ
as_i32 w = if ltb w (2 ^ 31) then pos w else negsuc (u32_mod - 1 - w)

abbrev pub from_i32 : ℤ → ℕ
from_i32 (pos n) = n % u32_mod
from_i32 (negsuc n) = u32_mod - 1 - n % u32_mod

-- `≤` on integers
abbrev pub leb_ℤ : ℤ → ℤ → Bool
leb_ℤ (pos a) (pos b) = leb a b
leb_ℤ (pos a) (negsuc b) = false
leb_ℤ (negsuc a) (pos b) = true
leb_ℤ (negsuc a) (negsuc b) = leb b a

pub from_i32-as_i32 : (w : ℕ) → w < u32_mod → from_i32 (as_i32 w) ≡ w
from_i32-as_i32 w h = ground arith
