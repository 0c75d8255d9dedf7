-- ===== src/Gdb/Poll/Laws.antt =====
-- Where `poll` stops.
use pokedex.Prelude.{
  ℕ, zero, suc, ◌<◌, ◌≡◌, inl, inr, refl, true, false, Bool-cases, none, some, Option-cases, List,
  Outcome, ok, ◌>>=◌, >>=-eq-ok, arith, as_u8,
}
use pokedex.Bus.Memory.{BusError}
use pokedex.Gdb.Poll.{PokedexTarget, StopReason, exited, sw_break, has, poll}

module _ (t : PokedexTarget) where
  open t use {Target, gdb_step_one}

  -- The target after `n` steps.
  abbrev pub after_steps : ℕ → Target → Outcome BusError Target
  after_steps zero inner = ok inner
  after_steps (suc n) inner = gdb_step_one inner >>= after_steps n

module _ (t : PokedexTarget) (breakpoints : List ℕ) where
  open t use {Target, gdb_is_exited, gdb_read_pc, gdb_step_one}

  abbrev pub RunsOn : Target → Type 0
  RunsOn inner = (gdb_is_exited inner ≡ none) × (has breakpoints (gdb_read_pc inner) ≡ false)

  abbrev pub StopsFor : StopReason → Target → Type 0
  StopsFor (exited code) inner = (c : ℕ) × (gdb_is_exited inner ≡ some c) × (code ≡ as_u8 c)
  StopsFor sw_break inner =
      (gdb_is_exited inner ≡ none) × (has breakpoints (gdb_read_pc inner) ≡ true)

  -- The target after some number of steps, before each of which it ran on, and the reason to stop.
  pub record FirstStop (inner : Target) (reason : StopReason) (inner' : Target) : Type 0 where
    pub steps : ℕ
    pub reached : after_steps t steps inner ≡ ok inner'
    pub ran_on :
        (k : ℕ) (between : Target) → k < steps → after_steps t k inner ≡ ok between → RunsOn between
    pub stops : StopsFor reason inner'

  ran_on_from :
      (inner next : Target)
      → gdb_step_one inner ≡ ok next
      → RunsOn inner
      → (n : ℕ)
      → ((k : ℕ) (between : Target) → k < n → after_steps t k next ≡ ok between → RunsOn between)
      → (k : ℕ) (between : Target) → k < suc n
      → after_steps t k inner ≡ ok between
      → RunsOn between
  ran_on_from inner next stepped here n later zero between lt e =
      let same : inner ≡ between = cc in rw (← same) here
  ran_on_from inner next stepped here n later (suc k) between lt e =
      later k between (omega arith) (rw stepped at e)

  one_more :
      (inner next : Target) {reason : StopReason} {inner' : Target}
      → gdb_step_one inner ≡ ok next
      → gdb_is_exited inner ≡ none
      → has breakpoints (gdb_read_pc inner) ≡ false
      → FirstStop next reason inner'
      → FirstStop inner reason inner'
  one_more inner next stepped alive miss s = record {
    steps = suc s.steps;
    reached = rw stepped s.reached;
    ran_on = ran_on_from inner next stepped (alive, miss) s.steps s.ran_on;
    stops = s.stops;
  }

  -- Where `poll` returns, it returns the first target from here on that has exited or stands at a
  -- breakpoint, with that reason, an exit code cut to a byte.
  pub poll-FirstStop :
      (fuel : ℕ) (inner : Target) {reason : StopReason} {inner' : Target}
      → poll t breakpoints fuel inner ≡ ok (some (reason, inner'))
      → FirstStop inner reason inner'
  unfolding poll
  poll-FirstStop zero inner h = cc
  poll-FirstStop (suc fuel) inner {reason} {inner'} h = elim (Option-cases (gdb_is_exited inner)) [
    | inr (code, gone) ↦
        let found = rw (gone, poll) at h in
        let reasons : exited (as_u8 code) ≡ reason = cc in
        let same : inner ≡ inner' = cc in
        rw (← reasons, ← same)
          (record {
            steps = 0;
            reached = refl;
            ran_on = λ k between lt e. absurd (omega arith);
            stops = (code, gone, refl);
          })
    | inl alive ↦ elim (Bool-cases (has breakpoints (gdb_read_pc inner))) [
      | inl hit ↦
          let found = rw (alive, hit, poll) at h in
          let reasons : sw_break ≡ reason = cc in
          let same : inner ≡ inner' = cc in
          rw (← reasons, ← same)
            (record {
              steps = 0;
              reached = refl;
              ran_on = λ k between lt e. absurd (omega arith);
              stops = (alive, hit);
            })
      | inr miss ↦
          let (next, stepped, rest) =
            >>=-eq-ok (gdb_step_one inner) (poll t breakpoints fuel)
              (rw (alive, miss, poll) at h) in
          one_more inner next stepped alive miss (poll-FirstStop fuel next rest)
    ]
  ]
