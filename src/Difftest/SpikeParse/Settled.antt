-- ===== src/Difftest/SpikeParse/Settled.antt =====
-- The parser keeps within its fuel, and on tokens of the tokenizer it does not panic.
use mathlib.Core.Path.{subst}
use pokedex.Prelude.{
  ℕ, zero, suc, ◌+◌, ◌%◌, ◌<◌, ◌≡◌, refl, ◌==◌, Bool, true, false, Option, some, List, [], ◌∷◌,
  String, Outcome, ok, err, panic, given, ◌>>=◌, ensure, arith, u32_mod, length, All, Option-cases,
  Outcome-cases, ap, ◌∙◌, inl, inr,
}
use pokedex.Util.Text.{from_str_radix, strip_mf, slice_1, split_at, count_chars}
use pokedex.Util.Text.Digits.{from_str_radix-ne-panic}
use pokedex.Difftest.SpikeText.{Token, mem_literal, hexadecimal, xreg, freg, vreg, sew, lmul, csr}
use pokedex.Difftest.SpikeLog.{Modification}
use pokedex.Difftest.SpikeParse.{
  Parser, ParseError, unexpected_token, invalid_value, out_of_fuel, expect, is_core, as_core_id,
  as_number, as_hex, as_instruction, as_lmul, as_vl, int_at, expect_hex, u8_size, u64_size,
  parse_xreg, parse_freg, parse_csr, parse_mem, load_or_store, parse_lmul, parse_vec_ctx,
  parse_vreg, reversed_bytes, modification, parse_changes, parse_single_commit, consume,
}
use pokedex.Difftest.SpikeParse.Grammar.{
  Change, of_xreg, of_freg, of_csr, of_load, of_store, of_vec_ctx, of_vreg, at, expect-ok,
}
use pokedex.Difftest.SpikeParse.Sound.{modification-ok}
use pokedex.Difftest.SpikeParse.Complete.{Change-shorter}

-- The result is not the one that the loop gives without fuel, and it panics only if `P`.
abbrev pub Within : Type 0 → {A : Type 0} → Outcome ParseError A → Type 0
Within P (ok a) = Unit
Within P (err (unexpected_token _ _ _)) = Unit
Within P (err (invalid_value _ _ _ _)) = Unit
Within P (err out_of_fuel) = ⊥
Within P panic = P

-- A token whose text the parser can slice and read as bytes.
abbrev pub Fine : Type 0 → Token → Type 0
Fine P (csr s) = Within P (slice_1 (split_at b'_' s).0)
Fine P (lmul s) = Within P (slice_1 s)
Fine P (hexadecimal s) = Within P (reversed_bytes s)
Fine P _ = Unit

some_inj : {A : Type 0} {a b : A} → some a ≡ some b → a ≡ b
some_inj e = cc

module _ (P : Type 0) where
  pub Within->>= :
      {A B : Type 0} (m : Outcome ParseError A) (f : A → Outcome ParseError B)
      → Within P m
      → ((a : A) → m ≡ ok a → Within P (f a))
      → Within P (m >>= f)
  Within->>= (ok a) f h k = k a refl
  Within->>= (err (unexpected_token _ _ _)) f h k = tt
  Within->>= (err (invalid_value _ _ _ _)) f h k = tt
  Within->>= (err out_of_fuel) f h k = h
  Within->>= panic f h k = h

  int_at-Within :
      (pos : ℕ) (kind value : String) (size radix : ℕ) (s : String)
      → Within P (int_at pos kind value size radix s)
  unfolding int_at
  int_at-Within pos kind value size radix s = elim (Outcome-cases (from_str_radix size radix s)) [
    | inl (n, good) ↦ rw (good, int_at) tt
    | inr (inl (e, bad)) ↦ rw (bad, int_at) tt
    | inr (inr bad) ↦ absurd (from_str_radix-ne-panic size radix s bad)
  ]

  as_lmul-Fine : (t : Token) {s : String} → as_lmul t ≡ some s → Fine P t → Fine P (lmul s)
  as_lmul-Fine (lmul r) {s} e h = subst (λ x. Fine P (lmul x)) {x = r} {y = s} (cc) h
  as_lmul-Fine _ e h = absurd (cc)

  as_hex-Fine : (t : Token) {s : String} → as_hex t ≡ some s → Fine P t → Fine P (hexadecimal s)
  as_hex-Fine (hexadecimal r) {s} e h = subst (λ x. Fine P (hexadecimal x)) {x = r} {y = s} (cc) h
  as_hex-Fine _ e h = absurd (cc)

  ensure-Within :
      (b : Bool) (pos : ℕ) (kind value reason : String)
      → Within P (ensure b (invalid_value pos kind value reason))
  ensure-Within true pos kind value reason = tt
  ensure-Within false pos kind value reason = tt

  expect-at :
      {A : Type 0} (what : String) (f : Token → Option A) (ts : List Token) (k : ℕ)
      → Within P (expect what f (at ts k))
  unfolding expect
  expect-at what f [] k = tt
  expect-at what f (t ∷ ts) k = elim (Option-cases (f t)) [
    | inl no_match ↦ rw (no_match, expect) tt
    | inr (v, matches) ↦ rw (matches, expect) tt
  ]

  expect-Within :
      {A : Type 0} (what : String) (f : Token → Option A) (p : Parser) → Within P (expect what f p)
  expect-Within what f p = expect-at what f p.tokens p.cursor

  expect_hex-Within : (what kind : String) (p : Parser) → Within P (expect_hex what kind p)
  unfolding expect_hex
  expect_hex-Within what kind p =
      Within->>= (expect what as_hex p) _ (expect-Within what as_hex p) λ (s, q) _.
        Within->>= (int_at q.cursor kind s u64_size 16 s) _
          (int_at-Within q.cursor kind s u64_size 16 s) λ bits _. tt

  parse_xreg-Within : (r : String) (p : Parser) → Within P (parse_xreg r p)
  unfolding parse_xreg
  parse_xreg-Within r p =
      Within->>= (int_at p.cursor "X reg index" r u8_size 10 r) _ (int_at-Within _ _ _ _ _ _)
        λ rd _.
          Within->>= (expect_hex _ "X reg value" (consume p)) _ (expect_hex-Within _ _ _) λ _ _. tt

  parse_freg-Within : (r : String) (p : Parser) → Within P (parse_freg r p)
  unfolding parse_freg
  parse_freg-Within r p =
      Within->>= (int_at p.cursor "F reg index" r u8_size 10 r) _ (int_at-Within _ _ _ _ _ _)
        λ rd _.
          Within->>= (expect_hex _ "F reg value" (consume p)) _ (expect_hex-Within _ _ _) λ _ _. tt

  parse_csr-Within : (r : String) (p : Parser) → Fine P (csr r) → Within P (parse_csr r p)
  unfolding parse_csr
  parse_csr-Within r p fine = Within->>= (slice_1 (split_at b'_' r).0) _ fine λ number _.
      Within->>= (int_at p.cursor "csr index" number u32_mod 10 number) _
        (int_at-Within _ _ _ _ _ _)
        λ rd _.
          Within->>= (expect_hex _ "csr value" (consume p)) _ (expect_hex-Within _ _ _) λ _ _. tt

  load_or_store-at : (addr : ℕ) (ts : List Token) (k : ℕ) → Within P (load_or_store addr (at ts k))
  unfolding load_or_store
  load_or_store-at addr [] k = tt
  load_or_store-at addr (hexadecimal s ∷ ts) k =
      Within->>= (int_at (k + 1) "store value" s u64_size 16 s) _ (int_at-Within _ _ _ _ _ _)
        λ _ _. tt
  load_or_store-at addr (_ ∷ ts) k = tt

  parse_mem-Within : (p : Parser) → Within P (parse_mem p)
  unfolding parse_mem
  parse_mem-Within p =
      Within->>= (expect_hex _ "mem address" (consume p)) _ (expect_hex-Within _ _ _)
        λ (addr, q) _. load_or_store-at addr q.tokens q.cursor

  parse_lmul-Within : (k : ℕ) (s : String) → Fine P (lmul s) → Within P (parse_lmul k s)
  unfolding parse_lmul
  parse_lmul-Within k s fine = elim (Option-cases (strip_mf s)) [
    | inl plain ↦
        rw (plain, parse_lmul)
          (Within->>= (slice_1 s) _ fine λ digits _.
            Within->>= (int_at k "lmul" s u32_mod 10 digits) _ (int_at-Within _ _ _ _ _ _)
              λ _ _. tt)
    | inr (digits, divides) ↦
        rw (divides, parse_lmul)
          (Within->>= (int_at k "flmul" s u32_mod 10 digits) _ (int_at-Within _ _ _ _ _ _)
            λ _ _. tt)
  ]

  -- The token that `expect` takes, and those behind it, are fine; it takes one.
  expect-Fine :
      {A : Type 0} (what : String) (f : Token → Option A) (p : Parser) {v : A} {q : Parser}
      → All (Fine P) p.tokens
      → expect what f p ≡ ok (v, q)
      → (t : Token) × (f t ≡ some v)
        × Fine P t
        × All (Fine P) q.tokens
        × (length q.tokens < length p.tokens)
  expect-Fine what f p fine e = given (expect-ok what f p e) λ (t, here, matches).
      given (subst (All (Fine P)) here fine)
        λ (first, rest). (t, matches, first, rest, omega (arith, ap length here))

  parse_vec_ctx-Within :
      (s : String) (p : Parser) → All (Fine P) (consume p).tokens → Within P (parse_vec_ctx s p)
  unfolding parse_vec_ctx
  parse_vec_ctx-Within s p fine =
      Within->>= (int_at p.cursor "sew" s u32_mod 10 s) _ (int_at-Within _ _ _ _ _ _) λ _ _.
        Within->>= (expect "lmul" as_lmul (consume p)) _ (expect-Within "lmul" as_lmul (consume p))
          λ (m, q) e.
            given (expect-Fine "lmul" as_lmul (consume p) fine e) λ (t, token, t_fine, _, _).
              Within->>= (parse_lmul q.cursor m) _
                (parse_lmul-Within q.cursor m (as_lmul-Fine t token t_fine))
                λ _ _. Within->>= (expect "vl" as_vl q) _ (expect-Within "vl" as_vl q) λ (l, q') _.
                  Within->>= (int_at q'.cursor "vl" l u32_mod 10 l) _ (int_at-Within _ _ _ _ _ _)
                    λ _ _. tt

  parse_vreg-Within :
      (r : String) (p : Parser) → All (Fine P) (consume p).tokens → Within P (parse_vreg r p)
  unfolding parse_vreg
  parse_vreg-Within r p fine =
      Within->>= (int_at p.cursor "vector RF index" r u8_size 10 r) _ (int_at-Within _ _ _ _ _ _)
        λ _ _.
          Within->>= (expect _ as_hex (consume p)) _
            (expect-Within "hex value for vector register" as_hex (consume p))
            λ (s, q) e. given (expect-Fine _ as_hex (consume p) fine e) λ (t, token, t_fine, _, _).
              Within->>= (ensure (count_chars s % 8 == 0) _) _ (ensure-Within _ _ _ _ _)
                λ _ _. Within->>= (reversed_bytes s) _ (as_hex-Fine t token t_fine) λ _ _. tt

  modification-Within :
      (t : Token) (ts : List Token) (k : ℕ) {m : Outcome ParseError (Modification × Parser)}
      → All (Fine P) (t ∷ ts)
      → modification t (at (t ∷ ts) k) ≡ some m
      → Within P m
  unfolding modification
  modification-Within (xreg r) ts k fine e =
      rw (← some_inj e) (parse_xreg-Within r (at (xreg r ∷ ts) k))
  modification-Within (freg r) ts k fine e =
      rw (← some_inj e) (parse_freg-Within r (at (freg r ∷ ts) k))
  modification-Within (csr r) ts k fine e =
      rw (← some_inj e) (parse_csr-Within r (at (csr r ∷ ts) k) fine.0)
  modification-Within mem_literal ts k fine e =
      rw (← some_inj e) (parse_mem-Within (at (mem_literal ∷ ts) k))
  modification-Within (sew s) ts k fine e =
      rw (← some_inj e) (parse_vec_ctx-Within s (at (sew s ∷ ts) k) fine.1)
  modification-Within (vreg r) ts k fine e =
      rw (← some_inj e) (parse_vreg-Within r (at (vreg r ∷ ts) k) fine.1)
  modification-Within _ ts k fine e = absurd (cc)

  -- What a change leaves is fine too.
  Change-Fine :
      {ts rest : List Token} {w : Modification}
      → Change ts w rest
      → All (Fine P) ts
      → All (Fine P) rest
  Change-Fine (of_xreg _ _) (_, (_, rest)) = rest
  Change-Fine (of_freg _ _) (_, (_, rest)) = rest
  Change-Fine (of_csr _ _ _) (_, (_, rest)) = rest
  Change-Fine (of_load _ _) (_, (_, rest)) = rest
  Change-Fine (of_store _ _) (_, (_, (_, rest))) = rest
  Change-Fine (of_vec_ctx _ _ _) (_, (_, (_, rest))) = rest
  Change-Fine (of_vreg _ _ _) (_, (_, rest)) = rest

  parse_changes-Within :
      (fuel : ℕ) (ts : List Token) (k : ℕ)
      → length ts < fuel
      → All (Fine P) ts
      → Within P (parse_changes fuel (at ts k))
  unfolding parse_changes
  parse_changes-Within zero ts k h fine = absurd (omega arith)
  parse_changes-Within (suc fuel) [] k h fine = tt
  parse_changes-Within (suc fuel) (t ∷ ts) k h fine =
      elim (Option-cases (modification t (at (t ∷ ts) k))) [
        | inl stop ↦ rw (stop, parse_changes) tt
        | inr (m, parsed) ↦
            rw (parsed, parse_changes)
              (Within->>= m _ (modification-Within t ts k fine parsed) λ (w, q) e.
                let change = modification-ok t ts k {q = q} (parsed ∙ ap some e) in
                let shorter = Change-shorter change in
                let rest = Change-Fine change fine in
                Within->>= (parse_changes fuel q) _
                  (parse_changes-Within fuel q.tokens q.cursor (omega arith) rest) λ _ _. tt)
      ]

  pub parse_single_commit-Fine :
      (ts : List Token) → All (Fine P) ts → Within P (parse_single_commit ts)
  unfolding parse_single_commit
  parse_single_commit-Fine ts fine =
      Within->>= (expect "core literal" is_core (at ts 0)) _ (expect-Within _ is_core (at ts 0))
        λ (_, q₁) e₁. given (expect-Fine _ is_core (at ts 0) fine e₁) λ (_, _, _, fine₁, less₁).
          Within->>= (expect "core id" as_core_id q₁) _ (expect-Within _ as_core_id q₁)
            λ (id, q₂) e₂. given (expect-Fine _ as_core_id q₁ fine₁ e₂) λ (_, _, _, fine₂, less₂).
              Within->>= (int_at 1 "core id" id u8_size 10 id) _ (int_at-Within _ _ _ _ _ _) λ _ _.
                Within->>= (expect "privilege level" as_number q₂) _ (expect-Within _ as_number q₂)
                  λ (priv, q₃) e₃.
                    given (expect-Fine _ as_number q₂ fine₂ e₃) λ (_, _, _, fine₃, less₃).
                      Within->>= (int_at 2 "privilege" priv u8_size 10 priv) _
                        (int_at-Within _ _ _ _ _ _)
                        λ _ _.
                          Within->>= (expect "pc" as_hex q₃) _ (expect-Within _ as_hex q₃)
                            λ (pc, q₄) e₄.
                              given (expect-Fine _ as_hex q₃ fine₃ e₄) λ (_, _, _, fine₄, less₄).
                                Within->>= (int_at 3 "pc" _ u64_size 16 pc) _
                                  (int_at-Within _ _ _ _ _ _)
                                  λ _ _.
                                    Within->>= (expect "instruction" as_instruction q₄) _
                                      (expect-Within _ as_instruction q₄)
                                      λ (insn, q₅) e₅.
                                        given (expect-Fine _ as_instruction q₄ fine₄ e₅)
                                          λ (_, _, _, fine₅, less₅).
                                            Within->>= (int_at 4 "instruction" _ u32_mod 16 insn) _
                                              (int_at-Within _ _ _ _ _ _)
                                              λ _ _.
                                                Within->>= (parse_changes (suc (length ts)) q₅) _
                                                  (parse_changes-Within (suc (length ts)) q₅.tokens
                                                    q₅.cursor (omega arith) fine₅)
                                                  λ _ _. tt
