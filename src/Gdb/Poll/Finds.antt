-- ===== src/Gdb/Poll/Finds.antt =====
-- With enough fuel `poll` gets to the place where it stops.
use pokedex.Prelude.{ℕ, zero, suc, ◌<◌, ◌≡◌, refl, some, ok, >>=-eq-ok, given, List, arith}
use pokedex.Gdb.Poll.{PokedexTarget, StopReason, exited, sw_break, poll}
use pokedex.Gdb.Poll.Laws.{after_steps, RunsOn, StopsFor, FirstStop}

module _ (t : PokedexTarget) (breakpoints : List ℕ) where
  open t use {Target, gdb_is_exited, gdb_read_pc, gdb_step_one}

  stops_here :
      (fuel : ℕ) (inner : Target) (reason : StopReason)
      → StopsFor t breakpoints reason inner
      → poll t breakpoints (suc fuel) inner ≡ ok (some (reason, inner))
  unfolding poll
  stops_here fuel inner (exited code) (c, gone, cut) = rw (cut, gone, poll) refl
  stops_here fuel inner sw_break (alive, hit) = rw (alive, hit, poll) refl

  stops_later :
      (fuel n : ℕ) (inner : Target) {reason : StopReason} {inner' : Target}
      → n < fuel
      → after_steps t n inner ≡ ok inner'
      → ((k : ℕ) (between : Target)
          → k < n
          → after_steps t k inner ≡ ok between
          → RunsOn t breakpoints between)
      → StopsFor t breakpoints reason inner'
      → poll t breakpoints fuel inner ≡ ok (some (reason, inner'))
  unfolding poll
  stops_later zero n inner lt reached ran stops = absurd (omega arith)
  stops_later (suc fuel) zero inner {reason} {inner'} lt reached ran stops =
      let same : inner ≡ inner' = cc in rw (same) (stops_here fuel inner' reason stops)
  stops_later (suc fuel) (suc n) inner {reason} {inner'} lt reached ran stops =
      given (>>=-eq-ok (gdb_step_one inner) (after_steps t n) reached) λ (next, stepped, rest).
        let (alive, miss) = ran 0 inner (omega arith) refl in
        rw (alive, miss, stepped, poll)
          (stops_later fuel n next (omega arith) rest
            (λ k between lt e. ran (suc k) between (omega arith) (rw stepped e)) stops)

  -- Where a target has a first stop, `poll` returns that stop and its reason on any fuel above the
  -- number of steps up to it.
  pub FirstStop-poll :
      (fuel : ℕ) (inner : Target) {reason : StopReason} {inner' : Target}
      (s : FirstStop t breakpoints inner reason inner')
      → s.steps < fuel
      → poll t breakpoints fuel inner ≡ ok (some (reason, inner'))
  FirstStop-poll fuel inner s lt = stops_later fuel s.steps inner lt s.reached s.ran_on s.stops
