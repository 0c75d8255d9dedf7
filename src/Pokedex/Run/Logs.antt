-- ===== src/Pokedex/Run/Logs.antt =====
-- The log of a run: a reset, commits, and the exit code, as the difftest expects it.
use pokedex.Prelude.{
  ℕ, zero, suc, ◌≡◌, refl, sym, ap, ◌∙◌, Bool, true, false, Option, none, some, Option-cases, inl,
  inr, List, [], ◌∷◌, ◌++◌, append_assoc, all, ==_refl, arith, Outcome, ok, assert, >>=-eq-ok,
  Profile,
}
use pokedex.Bus.Memory.{BusError}
use pokedex.Bus.Space.{Bus}
use pokedex.Common.{CommitLog, PokedexLog}
use pokedex.Difftest.PokedexLog.{from_logs, get_reset_pc, diff_reset}
use pokedex.Model.{ModelExport, StepDetail, is_empty_changes}
use pokedex.Pokedex.Simulator.{Simulator, new, reset_core, step_trace, is_exited}
use pokedex.Pokedex.Tracer.{trace_reset, trace_exit, trace_step, state_writes}
use pokedex.Pokedex.Run.{ExitCode, exit_code_of, unwrap_or, json_file_tracer, loop, run_subcommand}

abbrev pub is_commit : PokedexLog → Bool
is_commit (PokedexLog.commit _) = true
is_commit _ = false

all-append :
    (f : PokedexLog → Bool) (xs ys : List PokedexLog)
    → all f xs ≡ true
    → all f ys ≡ true
    → all f (xs ++ ys) ≡ true
all-append f [] ys hx hy = hy
all-append f (x ∷ xs) ys hx hy = ground (arith, all-append f xs ys)

one_commit :
    {c : CommitLog} {lines : List PokedexLog}
    → ◌≡◌ {A = Outcome BusError (List PokedexLog)} (ok (PokedexLog.commit c ∷ [])) (ok lines)
    → all is_commit lines ≡ true
one_commit {c} {lines} h = let e : PokedexLog.commit c ∷ [] ≡ lines = cc in rw (← e) refl

reassociate : (ws xs ys zs : List PokedexLog) → (ws ++ xs) ++ (ys ++ zs) ≡ ws ++ ((xs ++ ys) ++ zs)
reassociate ws xs ys zs = append_assoc ws xs (ys ++ zs) ∙ ap (◌++◌ ws) (sym (append_assoc xs ys zs))

accepted :
    (rv : ℕ) (rest : List PokedexLog)
    → (get_reset_pc (from_logs (PokedexLog.reset rv ∷ rest)) ≡ ok rv)
      × (diff_reset (from_logs (PokedexLog.reset rv ∷ rest)) rv
          ≡ ok (record (from_logs (PokedexLog.reset rv ∷ rest)) { index = 1 }))
unfolding get_reset_pc from_logs diff_reset
accepted rv rest = (refl, rw ==_refl refl)

module _ (m : ModelExport) where
  trace_step-commits :
      (detail : StepDetail m) {lines : List PokedexLog}
      → trace_step m {E = BusError} detail ≡ ok lines
      → all is_commit lines ≡ true
  unfolding trace_step
  trace_step-commits detail {lines} h = elim (Option-cases detail.inst) [
    | inl missing ↦
        let (_, _, is_nil) =
          >>=-eq-ok (assert (is_empty_changes m detail.changes)) (λ _. ok [])
            (rw (missing, trace_step) at h) in
        let nil : lines ≡ [] = cc in rw nil refl
    | inr (inst, there) ↦
        let (writes, _, is_lines) =
          >>=-eq-ok (state_writes m detail.changes) _ (rw (there, trace_step) at h) in
        one_commit is_lines
  ]

  -- What the loop returns ends the log that it is given with commits and an exit.
  loop-Ends :
      (p : Profile) (fuel : ℕ) (sim : Simulator p m) (log : List PokedexLog) {code : ℕ}
      {out : List PokedexLog}
      → loop p m (json_file_tracer m) fuel sim log ≡ ok (some (code, out))
      → (commits : List PokedexLog) × (all is_commit commits ≡ true)
        × (out ≡ log ++ (commits ++ PokedexLog.exit code ∷ []))
  unfolding loop trace_exit
  loop-Ends p zero sim log h = cc
  loop-Ends p (suc fuel) sim log {code} {out} h = elim (Option-cases (is_exited p m sim)) [
    | inr (now, exited) ↦
        let found = rw (exited, loop) at h in
        let codes : now ≡ code = cc in
        let outs : log ++ PokedexLog.exit now ∷ [] ≡ out = cc in ([], refl, rw (← codes) (sym outs))
    | inl running ↦
        let ((detail, sim'), _, h1) = >>=-eq-ok (step_trace p m sim) _ (rw (running, loop) at h) in
        let (lines, traced, h2) =
          >>=-eq-ok (trace_step m detail)
            (λ lines. loop p m (json_file_tracer m) fuel sim' (log ++ lines)) h1 in
        let (commits, are_commits, is_out) = loop-Ends p fuel sim' (log ++ lines) h2 in
        (
          lines ++ commits,
          all-append is_commit lines commits (trace_step-commits detail traced) are_commits,
          is_out ∙ reassociate log lines commits (PokedexLog.exit code ∷ []),
        )
  ]

  ended-eq-some :
      (ended : Option (ℕ × List PokedexLog)) {exit : ExitCode} {log : List PokedexLog}
      → ◌≡◌ {A = Outcome BusError (Option (ExitCode × List PokedexLog))}
          (ok (elim ended [ none ↦ none | some (code, l) ↦ some (exit_code_of code, l) ]))
          (ok (some (exit, log)))
      → (code : ℕ) × (ended ≡ some (code, log)) × (exit ≡ exit_code_of code)
  ended-eq-some none h = cc
  ended-eq-some (some (code, l)) {exit} {log} h =
      let codes : exit_code_of code ≡ exit = cc in
      let logs : l ≡ log = cc in (code, rw logs refl, sym codes)

  -- A run that ends has a log of one reset, to the configured reset vector or else to the entry
  -- point of the ELF, then commits only, then the exit code, of which its own exit code is the
  -- success or failure.
  pub run_subcommand-log :
      (p : Profile) (fuel : ℕ) (core : m.State) (bus : Bus) (elf_entry : ℕ) {exit : ExitCode}
      {log : List PokedexLog}
      → run_subcommand p m (json_file_tracer m) fuel core bus elf_entry ≡ ok (some (exit, log))
      → (code : ℕ) × (commits : List PokedexLog) × (all is_commit commits ≡ true)
        × (log
            ≡ PokedexLog.reset (unwrap_or bus.reset_vector elf_entry)
              ∷ (commits ++ PokedexLog.exit code ∷ []))
        × (exit ≡ exit_code_of code)
  unfolding run_subcommand trace_reset
  run_subcommand-log p fuel core bus elf_entry h =
      let rv = unwrap_or bus.reset_vector elf_entry in
      let sim = reset_core p m (new p m core bus) rv in
      let (ended, looped, h1) =
        >>=-eq-ok (loop p m (json_file_tracer m) fuel sim (PokedexLog.reset rv ∷ [])) _ h in
      let (code, is_some, exits) = ended-eq-some ended h1 in
      let (commits, are_commits, is_log) =
        loop-Ends p fuel sim (PokedexLog.reset rv ∷ []) (rw is_some at looped) in
      (code, commits, are_commits, is_log, exits)

  -- The difftest accepts the log of a run that ends: it reads the program counter that the run was
  -- reset to, and its own reset to that program counter succeeds.
  pub run_subcommand-get_reset_pc :
      (p : Profile) (fuel : ℕ) (core : m.State) (bus : Bus) (elf_entry : ℕ) {exit : ExitCode}
      {log : List PokedexLog}
      → run_subcommand p m (json_file_tracer m) fuel core bus elf_entry ≡ ok (some (exit, log))
      → (get_reset_pc (from_logs log) ≡ ok (unwrap_or bus.reset_vector elf_entry))
        × (diff_reset (from_logs log) (unwrap_or bus.reset_vector elf_entry)
            ≡ ok (record (from_logs log) { index = 1 }))
  run_subcommand-get_reset_pc p fuel core bus elf_entry h =
      let (code, commits, _, is_log, _) = run_subcommand-log p fuel core bus elf_entry h in
      rw is_log
        (accepted (unwrap_or bus.reset_vector elf_entry) (commits ++ PokedexLog.exit code ∷ []))
