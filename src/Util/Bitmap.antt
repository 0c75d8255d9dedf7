-- ===== src/Util/Bitmap.antt =====
-- `Bitmap32` and `BitmapIndexIter32` of simulator/src/util.rs. An iterator is the word that it
-- still has to go through, and `next` returns the advanced iterator beside the item.
pub mod Indices
pub mod Sets
use pokedex.Prelude.{
  ℕ, zero, suc, ◌-◌, ◌/◌, ◌%◌, ◌^◌, bit_and, bit_or, Bool, not, Option, none, some, List, [], ◌∷◌,
  ◌==◌, if◌then◌else◌,
}

pub record Bitmap32 : Type 0 where
  pub word : ℕ

abbrev pub empty : Bitmap32
empty = record { word = 0 }

abbrev pub from_mask : ℕ → Bitmap32
from_mask mask = record { word = mask }

-- `1 << idx` on `u32`: with no overflow check the shift amount is taken modulo 32. The callers
-- assert `idx < 32`.
abbrev pub one_shl : ℕ → ℕ
one_shl idx = 2 ^ (idx % 32)

unfoldable pub set : Bitmap32 → ℕ → Bitmap32
set m idx = record { word = bit_or m.word (one_shl idx) }

unfoldable pub test : Bitmap32 → ℕ → Bool
test m idx = not (bit_and m.word (one_shl idx) == 0)

-- `impl BitOr`
unfoldable pub union : Bitmap32 → Bitmap32 → Bitmap32
union lhs rhs = record { word = bit_or lhs.word rhs.word }

-- `impl BitOrAssign`
unfoldable pub union_assign : Bitmap32 → Bitmap32 → Bitmap32
union_assign self rhs = record self { word = bit_or self.word rhs.word }

pub record BitmapIndexIter32 : Type 0 where
  pub word : ℕ

pub iter : Bitmap32 → BitmapIndexIter32
iter m = record { word = m.word }

-- `trailing_zeros` of a word of `width` bits
pub trailing_zeros : ℕ → ℕ → ℕ
trailing_zeros zero n = 0
trailing_zeros (suc width) n =
    let rest = suc (trailing_zeros width (n / 2)) in if n % 2 == 1 then 0 else rest

-- `data & (data - 1)`
pub clear_lowest : ℕ → ℕ
clear_lowest n = bit_and n (n - 1)

pub next_of_width : ℕ → BitmapIndexIter32 → Option (ℕ × BitmapIndexIter32)
next_of_width width it =
    if it.word == 0
    then none
    else some (trailing_zeros width it.word, record { word = clear_lowest it.word })

unfoldable pub next : BitmapIndexIter32 → Option (ℕ × BitmapIndexIter32)
unfolding next_of_width trailing_zeros clear_lowest
next = next_of_width 32

-- What a loop over the iterator visits, in at most `fuel` rounds.
pub visit : ℕ → ℕ → BitmapIndexIter32 → List ℕ
visit width zero it = []
visit width (suc fuel) it = elim (next_of_width width it) [
  | none ↦ []
  | some (i, it') ↦ i ∷ visit width fuel it'
]

-- All that `indices` yields. A word has at most 32 set bits, so 32 rounds are enough.
unfoldable pub indices : Bitmap32 → List ℕ
unfolding iter visit next_of_width trailing_zeros clear_lowest
indices m = visit 32 32 (iter m)
