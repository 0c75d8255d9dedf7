-- ===== src/Difftest/SpikeParse/Spelled.antt =====
-- Lines of a log as Spike lays them out: words with any blanks between them, and numbers of any
-- width.
use mathlib.Core.Path.{subst}
use pokedex.Prelude.{sym, ℕ, ◌+◌, ◌≡◌, refl, List, [], ◌∷◌, String, All, ok, map}
use pokedex.Util.Text.{lines, split_whitespace}
use pokedex.Difftest.SpikeText.{Token, tokenize_spike_log_line}
use pokedex.Difftest.SpikeText.Printed.{token_text, IsPrinted}
use pokedex.Difftest.SpikeText.RoundTrip.{tokens_of_words-texts, words-IsWord}
use pokedex.Difftest.SpikeLog.{Commit, from_logs}
use pokedex.Difftest.SpikeParse.{LogError, commit_of_line, commits_from, backend_from_log}
use pokedex.Difftest.SpikeParse.Grammar.{Line}
use pokedex.Difftest.SpikeParse.Complete.{parse_single_commit_iff}
use pokedex.Difftest.SpikeParse.RoundTrip.{
  check_known-IsPrinted, tokens_of_commit-IsPrinted, lines_text,
}
use pokedex.Difftest.SpikeParse.Printer.{
  print_commit, IsSmall, tokens_of_commit, tokens_of_commit-Line,
}
use pokedex.Util.Text.Join.{split_whitespace-unwords, lines-unlines, unlines}

-- The words of the line are the texts of tokens, each well-formed, that spell the commit by the
-- grammar.
pub record Spells (line : String) (c : Commit) : Type 0 where
  pub tokens : List Token
  pub words : split_whitespace line ≡ map token_text tokens
  pub printed : All IsPrinted tokens
  pub grammar : Line tokens c

-- A commit for each line, in order.
abbrev pub EachSpells : List String → List Commit → Type 0
EachSpells [] [] = Unit
EachSpells (line ∷ rest) (c ∷ cs) = Spells line c × EachSpells rest cs
EachSpells _ _ = ⊥

commit_of_line-Spells :
    (n : ℕ) (line : String) (c : Commit) → Spells line c → commit_of_line n line ≡ ok c
unfolding commit_of_line tokenize_spike_log_line
commit_of_line-Spells n line c s =
    let parsed = (parse_single_commit_iff s.tokens c).1 s.grammar in
    rw s.words (
      rw (tokens_of_words-texts LogError s.tokens s.printed)
        (rw (check_known-IsPrinted n s.tokens s.printed) (rw parsed refl)))

commits_from-Spells :
    (n : ℕ) (ls : List String) (cs : List Commit) → EachSpells ls cs → commits_from n ls ≡ ok cs
unfolding commits_from
commits_from-Spells n [] [] h = refl
commits_from-Spells n [] (_ ∷ _) h = elim h [ ]
commits_from-Spells n (_ ∷ _) [] h = elim h [ ]
commits_from-Spells n (line ∷ ls) (c ∷ cs) (h, hs) =
    rw (commit_of_line-Spells n line c h) (rw (commits_from-Spells (n + 1) ls cs hs) refl)

-- A log is read as the given commits if it has one line for each, in order, and the words of the
-- line, with any blanks around them, are the texts of well-formed tokens that the grammar takes as the
-- commit. A number may have any width; a CSR's name has no blank in it and no colon at its end, and
-- the hexadecimal digits of a vector register come in eights.
pub backend_from_log-Spells :
    (raw : String) (cs : List Commit)
    → EachSpells (lines raw) cs
    → backend_from_log raw ≡ ok (from_logs cs)
unfolding backend_from_log
backend_from_log-Spells raw cs h = rw (commits_from-Spells 0 (lines raw) cs h) refl

-- The printed line of a commit spells it.
pub print_commit-Spells : (c : Commit) → IsSmall c → Spells (print_commit c) c
unfolding print_commit
print_commit-Spells c h =
    let printed = tokens_of_commit-IsPrinted c h in
    record {
      tokens = tokens_of_commit c;
      words =
          split_whitespace-unwords (map token_text (tokens_of_commit c))
            (words-IsWord (tokens_of_commit c) printed);
      printed = printed;
      grammar = tokens_of_commit-Line c h;
    }

each_print_commit : (cs : List Commit) → All IsSmall cs → EachSpells (map print_commit cs) cs
each_print_commit [] h = tt
each_print_commit (c ∷ cs) (h, hs) = (print_commit-Spells c h, each_print_commit cs hs)

-- The file that holds the printed lines of commits.
abbrev pub print_log : List Commit → String
print_log cs = unlines (map print_commit cs)

-- Commits whose values fit their types, whose CSR names have no blank in them and no colon at their
-- end, and whose vector registers have bytes, in words, are read back from their printed lines.
pub backend_from_log-print_log :
    (cs : List Commit) → All IsSmall cs → backend_from_log (print_log cs) ≡ ok (from_logs cs)
backend_from_log-print_log cs h = backend_from_log-Spells (print_log cs) cs (
    subst (λ ls. EachSpells ls cs) (sym (lines-unlines (map print_commit cs) (lines_text cs h)))
      (each_print_commit cs h))
