-- ===== src/Util/Text/Join.antt =====
-- Words joined by blanks and lines ended by line feeds are split again.
use Prim.Native.Char.{Char, code}
use pokedex.Prelude.{
  ℕ, ◌≡◌, refl, Bool, true, false, not, ◌&&◌, none, some, List, [], ◌∷◌, String, ◌==◌, arith, All,
  leb, ap,
}
use pokedex.Util.Text.{
  all_chars, is_empty, add_word, first_word, split_whitespace, is_whitespace, lines, strip_last,
}
use pokedex.Util.Text.Words.{IsWord}

abbrev pub append : String → String → String
append String.[] t = t
append (String.◌∷◌ c s) t = String.◌∷◌ c (append s t)

pub append-nil : (s : String) → append s String.[] ≡ s
append-nil String.[] = refl
append-nil (String.◌∷◌ c s) = ap (String.◌∷◌ c) (append-nil s)

pub all_chars-append :
    (p : Char → Bool) (s t : String)
    → all_chars p s ≡ true
    → all_chars p t ≡ true
    → all_chars p (append s t) ≡ true
all_chars-append p String.[] t h k = k
all_chars-append p (String.◌∷◌ c s) t h k = ground (arith, all_chars-append p s t)

-- The last character of a text that has one behind another.
pub strip_last-append :
    (b : ℕ) (s : String) (c : Char)
    → (code c == b) ≡ true
    → strip_last b (append s (String.◌∷◌ c String.[])) ≡ some s
strip_last-append b String.[] c h = rw h refl
strip_last-append b (String.◌∷◌ d String.[]) c h = ground arith
strip_last-append b (String.◌∷◌ d (String.◌∷◌ e s)) c h =
    ground (arith, strip_last-append b (String.◌∷◌ e s) c h)

pub strip_last-ne :
    (b : ℕ) (s : String) → all_chars (λ c. not (code c == b)) s ≡ true → strip_last b s ≡ none
strip_last-ne b String.[] h = refl
strip_last-ne b (String.◌∷◌ c String.[]) h = ground arith
strip_last-ne b (String.◌∷◌ c (String.◌∷◌ d s)) h =
    rw (strip_last-ne b (String.◌∷◌ d s) (ground arith)) refl

abbrev pub is_black : Char → Bool
is_black c = not (is_whitespace c)

abbrev pub unwords : List String → String
unwords [] = String.[]
unwords (w ∷ ws) = append w (String.◌∷◌ " " (unwords ws))

first_word-append :
    (w s : String)
    → all_chars is_black w ≡ true
    → first_word (append w (String.◌∷◌ " " s)) ≡ (w, split_whitespace s)
unfolding first_word split_whitespace is_whitespace
first_word-append String.[] s h = refl
first_word-append (String.◌∷◌ c w) s h =
    let black : is_whitespace c ≡ false = ground arith in
    rw black (rw (first_word-append w s (ground arith)) refl)

add_word-letters : (w : String) (ws : List String) → is_empty w ≡ false → add_word w ws ≡ w ∷ ws
add_word-letters String.[] ws h = cc
add_word-letters (String.◌∷◌ c w) ws h = refl

pub split_whitespace-unwords :
    (ws : List String) → All (IsWord is_black) ws → split_whitespace (unwords ws) ≡ ws
unfolding split_whitespace
split_whitespace-unwords [] h = refl
split_whitespace-unwords (w ∷ ws) ((black, letters), hs) =
    rw (first_word-append w (unwords ws) black)
      (rw (split_whitespace-unwords ws hs) (add_word-letters w ws letters))

abbrev pub is_text : Char → Bool
is_text c = not (code c == 10) && not (code c == 13)

breaks_are_blank : (c : Char) → (leb 9 (code c) && leb (code c) 13) ≡ true → is_whitespace c ≡ true
unfolding is_whitespace
breaks_are_blank c h = rw h refl

black_text : (s : String) → all_chars is_black s ≡ true → all_chars is_text s ≡ true
black_text String.[] h = refl
black_text (String.◌∷◌ c s) h = ground (arith, breaks_are_blank c, black_text s)

-- Words joined by blanks have no line feed in them.
pub unwords-text :
    (ws : List String) → All (IsWord is_black) ws → all_chars is_text (unwords ws) ≡ true
unwords-text [] h = refl
unwords-text (w ∷ ws) ((black, _), hs) =
    all_chars-append is_text w (String.◌∷◌ " " (unwords ws)) (black_text w black)
      (unwords-text ws hs)

abbrev pub unlines : List String → String
unlines [] = String.[]
unlines (l ∷ ls) = append l (String.◌∷◌ "\n" (unlines ls))

lines-append :
    (l s : String) → all_chars is_text l ≡ true → lines (append l (String.◌∷◌ "\n" s)) ≡ l ∷ lines s
unfolding lines
lines-append String.[] s h = refl
lines-append (String.◌∷◌ c l) s h = ground (arith, lines-append l s)

pub lines-unlines :
    (ls : List String) → All (λ l. all_chars is_text l ≡ true) ls → lines (unlines ls) ≡ ls
unfolding lines
lines-unlines [] h = refl
lines-unlines (l ∷ ls) (text, hs) = rw (lines-append l (unlines ls) text) (rw (lines-unlines ls hs))
