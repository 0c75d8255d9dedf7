-- ===== src/Util/Text/Words.antt =====
-- The words and the lines of a text are made of its characters.
use Prim.Native.Char.{Char, code}
use pokedex.Prelude.{
  ◌≡◌, refl, Bool, true, false, List, [], ◌∷◌, String, ◌==◌, arith, All, Bool-cases, Option-cases,
  inl, inr,
}
use pokedex.Util.Text.{
  all_chars, is_empty, add_word, first_word, split_whitespace, is_whitespace, begin_line, lines,
  strip_char,
}

module _ (p : Char → Bool) where
  abbrev pub IsWord : String → Type 0
  IsWord w = (all_chars p w ≡ true) × (is_empty w ≡ false)

  add_word-All :
      (w : String) (ws : List String)
      → all_chars p w ≡ true
      → All IsWord ws
      → All IsWord (add_word w ws)
  add_word-All String.[] ws h hs = hs
  add_word-All (String.◌∷◌ c s) ws h hs = ((h, refl), hs)

  first_word-All :
      (s : String)
      → all_chars p s ≡ true
      → (all_chars p (first_word s).0 ≡ true) × All IsWord (first_word s).1
  unfolding first_word
  first_word-All String.[] h = (refl, tt)
  first_word-All (String.◌∷◌ c s) h =
      let (w, ws) = first_word-All s (ground arith) in
      elim (Bool-cases (is_whitespace c)) [
        | inl blank ↦ rw blank (refl, add_word-All _ _ w ws)
        | inr letter ↦ rw letter (ground arith, ws)
      ]

  -- The words are not empty, and made of the text's characters.
  pub split_whitespace-All : (s : String) → all_chars p s ≡ true → All IsWord (split_whitespace s)
  unfolding split_whitespace
  split_whitespace-All s h = let (w, ws) = first_word-All s h in add_word-All _ _ w ws

  abbrev pub IsLine : String → Type 0
  IsLine l = all_chars p l ≡ true

  begin_line-All :
      (c : Char) (ls : List String) → p c ≡ true → All IsLine ls → All IsLine (begin_line c ls)
  unfolding begin_line
  begin_line-All c [] h hs = (ground arith, tt)
  begin_line-All c (l ∷ ls) h (first, rest) = (ground arith, rest)

  pub lines-All : (s : String) → all_chars p s ≡ true → All IsLine (lines s)
  unfolding lines
  lines-All String.[] h = tt
  lines-All (String.◌∷◌ c s) h =
      let rest = lines-All s (ground arith) in
      let begun = begin_line-All c (lines s) (ground arith) rest in
      elim (Bool-cases (code c == 10)) [
        | inl feed ↦ rw feed (refl, rest)
        | inr other ↦ rw other (elim (Option-cases (strip_char 10 s)) [
          | inl text ↦ rw (text) begun
          | inr (_, feed) ↦ rw (feed) (elim (Bool-cases (code c == 13)) [
            | inl return ↦ rw return rest
            | inr text ↦ rw text begun
          ])
        ])
      ]
