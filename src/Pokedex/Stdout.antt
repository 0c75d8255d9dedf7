-- ===== src/Pokedex/Stdout.antt =====
-- `StdoutTracer` of simulator/src/pokedex/mod.rs. A method returns the lines that it prints.
use pokedex.Prelude.{
  ℕ, none, some, List, [], ◌∷◌, ◌++◌, map, String, Outcome, ok, assert, ◌>>=◌, ◌>>◌,
}
use pokedex.Util.Text.{concat}
use pokedex.Util.Text.Print.{decimal, hex}
use pokedex.Model.{
  ModelExport, StepDetail, xreg_changes, freg_changes, vreg_change_indices, csr_change_indices,
  read_vreg, read_csr, is_empty_changes,
}
use pokedex.Model.Decode.{Inst, nc, c}
use pokedex.Pokedex.Tracer.{name_of_csr}

unfoldable pub print_reset : ℕ → List String
print_reset pc = concat ("[RESET] pc=0x" ∷ hex 8 pc ∷ []) ∷ []

unfoldable pub print_exit : ℕ → List String
print_exit exit_code = concat ("[EXIT]  code=" ∷ decimal exit_code ∷ []) ∷ []

unfoldable pub inst_text : Inst → String
inst_text (nc i) = concat (" inst=0x" ∷ hex 8 i ∷ [])
inst_text (c i) = concat (" inst=0x" ∷ hex 4 i ∷ [])

-- the text of a change of `x`, and of `f`
unfoldable pub xreg_text : ℕ × ℕ → String
xreg_text (rd, value) = concat (" x" ∷ decimal rd ∷ "<-0x" ∷ hex 8 value ∷ [])

unfoldable pub freg_text : ℕ × ℕ → String
freg_text (rd, value) = concat (" f" ∷ decimal rd ∷ "<-0x" ∷ hex 8 value ∷ [])

-- `for byte in value.iter().rev()`
unfoldable pub byte_texts : List ℕ → List String
byte_texts [] = []
byte_texts (byte ∷ bytes) = byte_texts bytes ++ hex 2 byte ∷ []

module _ (m : ModelExport) where
  unfoldable pub vreg_text : m.State → ℕ → String
  vreg_text core rd =
      concat (" v" ∷ decimal rd ∷ "<-0x" ∷ concat (byte_texts (read_vreg m core rd 32)) ∷ [])

  -- the loop over `csr_change_indices`
  unfoldable pub csr_texts {ℓ} : {E : Type ℓ} → m.State → List ℕ → Outcome E (List String)
  unfolding name_of_csr
  csr_texts core [] = ok []
  csr_texts core (csr ∷ csrs) = do
    name ← name_of_csr csr
    texts ← csr_texts core csrs
    ok (concat (" " ∷ name ∷ "<-0x" ∷ hex 8 (read_csr m core csr) ∷ []) ∷ texts)

  unfoldable pub print_step {ℓ} : {E : Type ℓ} → StepDetail m → Outcome E (List String)
  unfolding csr_texts
  print_step detail = elim detail.inst [
    | some inst ↦ do
      let changes = detail.changes
      csrs ← csr_texts changes.core (csr_change_indices m changes)
      ok (
          concat (
            "[INST]  pc=0x"
            ∷ hex 8 detail.pc
            ∷ inst_text inst
            ∷ concat (map xreg_text (xreg_changes m changes))
            ∷ concat (map freg_text (freg_changes m changes))
            ∷ concat (map (vreg_text changes.core) (vreg_change_indices m changes))
            ∷ concat csrs
            ∷ [])
          ∷ [])
    | none ↦ do assert (is_empty_changes m detail.changes); ok []
  ]
