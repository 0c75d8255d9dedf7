-- ===== src/Gdb/Breakpoints/Laws.antt =====
-- What the set of breakpoints does to `poll`.
use mathlib.Core.Path.{subst}
use pokedex.Prelude.{
  given, ℕ, ◌<◌, ◌≡◌, refl, inl, inr, true, false, Bool-cases, ◌||◌, Option, none, some, List, [],
  ◌∷◌, ◌==◌, ok, >>=-eq-ok, arith,
}
use pokedex.Gdb.Poll.{PokedexTarget, StopReason, sw_break, has, poll}
use pokedex.Gdb.Poll.Laws.{after_steps, RunsOn, FirstStop, poll-FirstStop}
use pokedex.Gdb.Poll.Finds.{FirstStop-poll}
use pokedex.Gdb.Breakpoints.{
  insert, remove, target_stopped, stopped, TargetWrapper, add_sw_breakpoint, remove_sw_breakpoint,
  wait_for_stop_reason,
}

has-insert : (set : List ℕ) (addr pc : ℕ) → has (insert set addr) pc ≡ (addr == pc || has set pc)
unfolding insert
has-insert set addr pc = elim (Bool-cases (has set addr)) [
  | inl there ↦ elim (Bool-cases (addr == pc)) [
    | inl same ↦
        let equal : addr ≡ pc = ground arith in let here = rw equal at there in ground arith
    | inr other ↦ ground arith
  ]
  | inr absent ↦ ground arith
]

has-remove : (set : List ℕ) (addr : ℕ) → has (remove set addr) addr ≡ false
unfolding remove
has-remove [] addr = refl
has-remove (b ∷ bs) addr = let same = has-remove bs addr in ground arith

module _ (t : PokedexTarget) where
  open t use {Target, gdb_is_exited, gdb_read_pc}

  wait-poll :
      (fuel : ℕ) (w : TargetWrapper t) {reason : StopReason} {inner' : Target}
      → poll t w.breakpoints fuel w.inner ≡ ok (some (reason, inner'))
      → wait_for_stop_reason t fuel w
        ≡ ok (
            some (
              target_stopped reason,
              record { inner = inner'; config = w.config; breakpoints = w.breakpoints },
            ))
  unfolding wait_for_stop_reason
  wait-poll fuel w e = rw e refl

  stopped-eq :
      (w w' : TargetWrapper t) {reason : StopReason} (polled : Option (StopReason × Target))
      → stopped t w polled ≡ ok (some (target_stopped reason, w'))
      → polled ≡ some (reason, w'.inner)
  stopped-eq w w' none e = cc
  stopped-eq w w' {reason} (some (r, inner)) e =
      let left : record { inner = inner; config = w.config; breakpoints = w.breakpoints } ≡ w' =
        cc in
      let reasons : r ≡ reason = cc in rw (← left, ← reasons) refl

  poll-wait :
      (fuel : ℕ) (w w' : TargetWrapper t) {reason : StopReason}
      → wait_for_stop_reason t fuel w ≡ ok (some (target_stopped reason, w'))
      → poll t w.breakpoints fuel w.inner ≡ ok (some (reason, w'.inner))
  unfolding wait_for_stop_reason
  poll-wait fuel w w' {reason} e =
      given (>>=-eq-ok (poll t w.breakpoints fuel w.inner) (stopped t w) e)
        λ (polled, there, rest). rw (there, stopped-eq w w' polled rest) refl

  -- A target that gets to a newly set breakpoint after some steps, and that before each of them had
  -- not exited, was at no earlier breakpoint and not at the new one, is reported there, given more fuel
  -- than steps: it stops at a breakpoint, unless it has exited.
  pub wait_for_stop_reason-add_sw_breakpoint :
      (w w' : TargetWrapper t) (addr fuel n : ℕ) {inner' : Target}
      → add_sw_breakpoint t w addr ≡ ok (true, w')
      → after_steps t n w.inner ≡ ok inner'
      → gdb_read_pc inner' ≡ addr
      → gdb_is_exited inner' ≡ none
      → ((k : ℕ) (between : Target)
          → k < n
          → after_steps t k w.inner ≡ ok between
          → RunsOn t w.breakpoints between × (¬ (gdb_read_pc between ≡ addr)))
      → n < fuel
      → wait_for_stop_reason t fuel w'
        ≡ ok (
            some (
              target_stopped sw_break,
              record { inner = inner'; config = w.config; breakpoints = w'.breakpoints },
            ))
  unfolding add_sw_breakpoint
  wait_for_stop_reason-add_sw_breakpoint w w' addr fuel n {inner'} added reached there alive before
        lt =
      let same : record {
        inner = w.inner;
        config = w.config;
        breakpoints = insert w.breakpoints addr;
      }
          ≡ w' =
        cc in
      rw (← same) (
        wait-poll fuel
          (record { inner = w.inner; config = w.config; breakpoints = insert w.breakpoints addr })
          (FirstStop-poll t (insert w.breakpoints addr) fuel w.inner
            (record {
              steps = n;
              reached = reached;
              ran_on = λ k between low e.
                  let ((runs, miss), apart) = before k between low e in
                  (runs, rw (has-insert w.breakpoints addr (gdb_read_pc between)) (ground arith));
              stops =
                  (alive, rw (has-insert w.breakpoints addr (gdb_read_pc inner')) (ground arith));
            })
            lt))

  -- After the removal of the breakpoint at an address, no stop at a breakpoint has the program counter
  -- at that address.
  pub wait_for_stop_reason-remove_sw_breakpoint :
      (w w' w'' : TargetWrapper t) (addr fuel : ℕ)
      → remove_sw_breakpoint t w addr ≡ ok (true, w')
      → wait_for_stop_reason t fuel w' ≡ ok (some (target_stopped sw_break, w''))
      → ¬ (gdb_read_pc w''.inner ≡ addr)
  unfolding remove_sw_breakpoint wait_for_stop_reason
  wait_for_stop_reason-remove_sw_breakpoint w w' w'' addr fuel removed waited there =
      let same : record {
        inner = w.inner;
        config = w.config;
        breakpoints = remove w.breakpoints addr;
      }
          ≡ w' =
        cc in
      let (alive, hit) =
        FirstStop.stops
          (poll-FirstStop t w'.breakpoints fuel w'.inner (poll-wait fuel w' w'' waited)) in
      let kept : has (remove w.breakpoints addr) (gdb_read_pc w''.inner) ≡ true =
        subst (λ (x : TargetWrapper t). has x.breakpoints (gdb_read_pc w''.inner) ≡ true) {x = w'}
          {y = record {
            inner = w.inner;
            config = w.config;
            breakpoints = remove w.breakpoints addr;
          }}
          (cc) hit in
      let gone = has-remove w.breakpoints addr in let kept_there = rw there at kept in cc
