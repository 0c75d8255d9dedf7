-- ===== src/Difftest/SpikeParse/Rest.antt =====
-- What the parser does not read, and the words that the tokenizer cannot slice.
use Prim.Native.Char.{Char}
use pokedex.Prelude.{ℕ, ◌≡◌, false, none, List, [], ◌∷◌, ◌++◌, String, arith, ok, panic}
use pokedex.Util.Text.{is_ascii, strip_last}
use pokedex.Difftest.SpikeText.{
  Token, mem_literal, hexadecimal, xreg, freg, vreg, sew, csr, str_to_token,
}
use pokedex.Difftest.SpikeText.Printed.{first_ne}
use pokedex.Difftest.SpikeLog.{Modification, Commit}
use pokedex.Difftest.SpikeParse.{parse_single_commit}
use pokedex.Difftest.SpikeParse.Grammar.{
  NotHex, Stops, Change, of_xreg, of_freg, of_csr, of_load, of_store, of_vec_ctx, of_vreg, Changes,
  no_more, one_more, Line, of_head,
}
use pokedex.Difftest.SpikeParse.Complete.{parse_single_commit_iff}

-- The token is neither a value nor the beginning of a change.
abbrev pub IsIdle : Token → Type 0
IsIdle t = NotHex (t ∷ []) × Stops (t ∷ [])

idle_first : (t : Token) (rest : List Token) → IsIdle t → NotHex (t ∷ rest) × Stops (t ∷ rest)
idle_first (hexadecimal s) rest (h, _) = elim h [ ]
idle_first (xreg s) rest (_, h) = elim h [ ]
idle_first (freg s) rest (_, h) = elim h [ ]
idle_first (csr s) rest (_, h) = elim h [ ]
idle_first mem_literal rest (_, h) = elim h [ ]
idle_first (sew s) rest (_, h) = elim h [ ]
idle_first (vreg s) rest (_, h) = elim h [ ]
idle_first _ rest idle = (tt, tt)

module _ (t : Token) (rest : List Token) (idle : IsIdle t) where
  NotHex-append : (ts : List Token) → NotHex ts → NotHex (ts ++ t ∷ rest)
  NotHex-append [] h = (idle_first t rest idle).0
  NotHex-append (hexadecimal s ∷ ts) h = elim h [ ]
  NotHex-append (_ ∷ ts) h = tt

  Stops-append : (ts : List Token) → Stops ts → Stops (ts ++ t ∷ rest)
  Stops-append [] h = (idle_first t rest idle).1
  Stops-append (xreg s ∷ ts) h = elim h [ ]
  Stops-append (freg s ∷ ts) h = elim h [ ]
  Stops-append (csr s ∷ ts) h = elim h [ ]
  Stops-append (mem_literal ∷ ts) h = elim h [ ]
  Stops-append (sew s ∷ ts) h = elim h [ ]
  Stops-append (vreg s ∷ ts) h = elim h [ ]
  Stops-append (_ ∷ ts) h = tt

  Change-append :
      {ts left : List Token} {w : Modification}
      → Change ts w left
      → Change (ts ++ t ∷ rest) w (left ++ t ∷ rest)
  Change-append (of_xreg index value) = of_xreg index value
  Change-append (of_freg index value) = of_freg index value
  Change-append (of_csr {r} sliced index value) = of_csr {r = r} sliced index value
  Change-append (of_load {ts = ts} address behind) = of_load address (NotHex-append ts behind)
  Change-append (of_store address value) = of_store address value
  Change-append (of_vec_ctx width parts elements) = of_vec_ctx width parts elements
  Change-append (of_vreg index aligned read) = of_vreg index aligned read

  Changes-append :
      {ts : List Token} {ws : List Modification} → Changes ts ws → Changes (ts ++ t ∷ rest) ws
  Changes-append (no_more {ts} stops) = no_more (Stops-append ts stops)
  Changes-append (one_more c cs) = one_more (Change-append c) (Changes-append cs)

  Line-append : {ts : List Token} {c : Commit} → Line ts c → Line (ts ++ t ∷ rest) c
  Line-append (of_head id priv pc insn changes) = of_head id priv pc insn (Changes-append changes)

-- A token that neither is a value nor begins a change ends a line for the parser: the tokens behind
-- it, changes among them, are ignored without an error.
pub parse_single_commit-idle :
    (ts : List Token) (t : Token) (rest : List Token) (c : Commit)
    → IsIdle t
    → parse_single_commit ts ≡ ok c
    → parse_single_commit (ts ++ t ∷ rest) ≡ ok c
parse_single_commit-idle ts t rest c idle e =
    (parse_single_commit_iff (ts ++ t ∷ rest) c).1
      (Line-append t rest idle ((parse_single_commit_iff ts c).0 e))

-- A word that begins with a character outside of ASCII and does not end with a colon panics, where
-- it should be an unknown token.
pub str_to_token-wide :
    (c : Char) (s : String)
    → is_ascii c ≡ false
    → strip_last b':' (String.◌∷◌ c s) ≡ none
    → str_to_token {E = ℕ} (String.◌∷◌ c s) ≡ panic
unfolding str_to_token
str_to_token-wide c String.[] wide plain =
    ground (arith, first_ne c "c" String.[] "ore", first_ne c "m" String.[] "em")
str_to_token-wide c (String.◌∷◌ d s) wide plain =
    ground (arith, first_ne c "c" (String.◌∷◌ d s) "ore", first_ne c "m" (String.◌∷◌ d s) "em")
