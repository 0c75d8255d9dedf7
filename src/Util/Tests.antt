-- ===== src/Util/Tests.antt =====
-- Bitmaps of simulator/src/util.rs at concrete words.
use pokedex.Util.Text.{split_whitespace, is_whitespace}
use pokedex.Prelude.{◌≡◌, refl, [], ◌∷◌, ◌≡◌, arith}
use pokedex.Util.Bits.{bit}
use pokedex.Util.Bitmap.{Bitmap32, indices}
use pokedex.Util.Bitmap.Indices.{select, indices-eq-select}

abbrev mask : Bitmap32
mask = record { word = 0x80000021 }

indices-eq-select_example : indices mask ≡ select (λ i. bit i 0x80000021) 0 32
indices-eq-select_example = indices-eq-select mask (omega arith)

words_of_a_line : split_whitespace " core   0: 3\t0x8 " ≡ "core" ∷ "0:" ∷ "3" ∷ "0x8" ∷ []
unfolding split_whitespace is_whitespace
words_of_a_line = refl
