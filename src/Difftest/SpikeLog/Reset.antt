-- ===== src/Difftest/SpikeLog/Reset.antt =====
-- `diff_reset` of the Spike log: the boot ROM is skipped.
use pokedex.Prelude.{
  ℕ, zero, suc, ◌+◌, ◌≤◌, ◌<◌, ◌≡◌, ◌≢◌, refl, ◌∙◌, ap, ◌⊎◌, inl, inr, some, arith, ok, get_elem?,
}
use pokedex.Difftest.SpikeLog.{Commit, SpikeLogBackend, max_skip, skip_to, diff_reset}

-- The `k`th commit from the cursor on has another program counter.
abbrev pub Passes : SpikeLogBackend → ℕ → ℕ → Type 0
Passes b pc k = (c : Commit) → get_elem? b.logs (b.index + k) ≡ some c → c.pc ≢ pc

-- From `b`, a commit at `pc` is the first one, and stands fewer than `rounds` commits on: `b'` is
-- there, and nothing else has changed.
pub record Skips (rounds pc : ℕ) (b b' : SpikeLogBackend) : Type 0 where
  pub logs : b'.logs ≡ b.logs
  pub state : b'.state ≡ b.state
  pub first :
      (b.index ≤ b'.index)
      × (b'.index < b.index + rounds)
      × ((c : Commit) × (get_elem? b.logs b'.index ≡ some c) × (c.pc ≡ pc))
  pub passed : (k : ℕ) → b.index + k < b'.index → Passes b pc k

abbrev advance : SpikeLogBackend → SpikeLogBackend
advance b = record b { index = b.index + 1 }

-- One round of the loop.
skip_to-suc :
    (rounds pc : ℕ) (b : SpikeLogBackend) {b' : SpikeLogBackend}
    → skip_to (suc rounds) pc b ≡ ok b'
    → (c : Commit) × (get_elem? b.logs b.index ≡ some c)
      × (((c.pc ≡ pc) × (b' ≡ b)) ⊎ ((c.pc ≢ pc) × (skip_to rounds pc (advance b) ≡ ok b')))
unfolding skip_to
skip_to-suc rounds pc b h = ground arith

module _ (rounds pc : ℕ) (b : SpikeLogBackend) (c : Commit)
    (here : get_elem? b.logs b.index ≡ some c) where
  Skips-here : c.pc ≡ pc → Skips (suc rounds) pc b b
  Skips-here hit = record {
    logs = refl;
    state = refl;
    first = (omega arith, omega arith, (c, here, hit));
    passed = λ k lt. absurd (omega arith);
  }

  passed-zero : c.pc ≢ pc → Passes b pc 0
  passed-zero miss c' e same =
      let start : b.index + 0 ≡ b.index = omega arith in
      let is_c : c ≡ c' = cc (rw start at e) in miss (ap (λ (x : Commit). x.pc) is_c ∙ same)

  Skips-further :
      {b' : SpikeLogBackend}
      → c.pc ≢ pc
      → Skips rounds pc (advance b) b'
      → Skips (suc rounds) pc b b'
  Skips-further {b'} miss s = record {
    logs = s.logs;
    state = s.state;
    first = (omega (arith, s.first.0), omega (arith, s.first.1), s.first.2);
    passed = passed;
  }
    where
      passed : (k : ℕ) → b.index + k < b'.index → Passes b pc k
      passed zero lt c' e = passed-zero miss c' e
      passed (suc k) lt c' e =
          let next : b.index + suc k ≡ b.index + 1 + k = omega arith in
          s.passed k (omega arith) c' (rw next at e)

skip_to-Skips :
    (rounds pc : ℕ) (b : SpikeLogBackend) {b' : SpikeLogBackend}
    → skip_to rounds pc b ≡ ok b'
    → Skips rounds pc b b'
skip_to-Skips zero pc b h = unfold skip_to in cc h
skip_to-Skips (suc rounds) pc b {b'} h =
    let (c, here, which) = skip_to-suc rounds pc b h in
    elim which [
      | inl (hit, same) ↦ rw same (Skips-here rounds pc b c here hit)
      | inr (miss, rest) ↦
          Skips-further rounds pc b c here miss (skip_to-Skips rounds pc (advance b) rest)
    ]

-- A `diff_reset` that succeeds stands at the first commit with the expected program counter, fewer
-- than 16 commits on, and has changed neither the logs nor the state.
pub diff_reset-Skips :
    (b : SpikeLogBackend) (pc : ℕ) {b' : SpikeLogBackend}
    → diff_reset b pc ≡ ok b'
    → Skips max_skip pc b b'
unfolding diff_reset
diff_reset-Skips b pc h = skip_to-Skips max_skip pc b h
