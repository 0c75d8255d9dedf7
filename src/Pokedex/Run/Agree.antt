-- ===== src/Pokedex/Run/Agree.antt =====
-- What a run that prints has in common with the run that logs.
use pokedex.Prelude.{
  ap, ℕ, zero, suc, ◌≡◌, refl, Option, none, some, Option-cases, inl, inr, List, [], ◌∷◌, ◌++◌,
  Outcome, ok, err, panic, assert, ◌>>=◌, Profile, String,
}
use pokedex.Bus.Memory.{BusError}
use pokedex.Bus.Space.{Bus}
use pokedex.Common.{PokedexLog}
use pokedex.Model.{ModelExport, StepDetail, is_empty_changes, CoreChange, csr_change_indices}
use pokedex.Pokedex.Simulator.{Simulator, new, reset_core, step_trace, is_exited}
use pokedex.Pokedex.Tracer.{name_of_csr, csr_writes, state_writes, trace_step}
use pokedex.Pokedex.Stdout.{csr_texts, print_step}
use pokedex.Pokedex.Run.{
  unwrap_or, ExitCode, exit_code_of, json_file_tracer, stdout_tracer, loop, run_subcommand,
}

-- Both return, with related values, both report the same error, or both panic.
pub data Alike {A B : Type 0} (R : A → B → Type 0) (left : Outcome BusError A)
    (right : Outcome BusError B) : Type 0 where
  both_return : (a : A) (b : B) → R a b → left ≡ ok a → right ≡ ok b → Alike R left right
  both_report : (e : BusError) → left ≡ err e → right ≡ err e → Alike R left right
  both_panic : left ≡ panic → right ≡ panic → Alike R left right

-- Both ran out of fuel, or both ended with the same exit code.
abbrev pub SameExit : {C X Y : Type 0} → Option (C × X) → Option (C × Y) → Type 0
SameExit none none = Unit
SameExit (some (code, _)) (some (code', _)) = code ≡ code'
SameExit _ _ = ⊥

abbrev Any : {A B : Type 0} → A → B → Type 0
Any a b = Unit

bind-Alike :
    {A B C D : Type 0} {R : A → B → Type 0} (S : C → D → Type 0) {left : Outcome BusError A}
    {right : Outcome BusError B} {f : A → Outcome BusError C} {g : B → Outcome BusError D}
    → Alike R left right
    → ((a : A) (b : B) → R a b → Alike S (f a) (g b))
    → Alike S (left >>= f) (right >>= g)
bind-Alike S (both_return a b r l k) next = rw (l, k) (next a b r)
bind-Alike S (both_report e l r) next = both_report e (rw l refl) (rw r refl)
bind-Alike S (both_panic l r) next = both_panic (rw l refl) (rw r refl)

bind-same :
    {A C D : Type 0} (S : C → D → Type 0) (o : Outcome BusError A) {f : A → Outcome BusError C}
    {g : A → Outcome BusError D}
    → ((a : A) → Alike S (f a) (g a))
    → Alike S (o >>= f) (o >>= g)
bind-same S (ok a) next = next a
bind-same S (err e) next = both_report e refl refl
bind-same S panic next = both_panic refl refl

and_then :
    {A B C : Type 0} {left : Outcome BusError A} {right : Outcome BusError B}
    → Alike Any left right
    → (f : A → C) → Alike Any (left >>= (λ a. ok (f a))) right
and_then (both_return a b _ l r) f = both_return (f a) b tt (rw l refl) r
and_then (both_report e l r) f = both_report e (rw l refl) r
and_then (both_panic l r) f = both_panic (rw l refl) r

-- the exit code of the process
abbrev coded : {X : Type 0} → Option (ℕ × X) → Option (ExitCode × X)
coded ended = elim ended [ none ↦ none | some (code, log) ↦ some (exit_code_of code, log) ]

ended-SameExit :
    {X Y : Type 0} (left : Option (ℕ × X)) (right : Option (ℕ × Y))
    → SameExit left right
    → Alike SameExit (ok (coded left)) (ok (coded right))
ended-SameExit none none same = both_return none none tt refl refl
ended-SameExit none (some _) same = elim same [ ]
ended-SameExit (some _) none same = elim same [ ]
ended-SameExit (some (code, x)) (some (code', y)) same =
    both_return (some (exit_code_of code, x)) (some (exit_code_of code', y)) (ap exit_code_of same)
      refl refl

module _ (m : ModelExport) where
  csrs-Alike :
      (core : m.State) (csrs : List ℕ) → Alike Any (csr_writes m core csrs) (csr_texts m core csrs)
  unfolding csr_writes csr_texts
  csrs-Alike core [] = both_return [] [] tt refl refl
  csrs-Alike core (csr ∷ csrs) =
      bind-same Any (name_of_csr csr)
        λ name. bind-Alike Any (csrs-Alike core csrs) λ writes texts _. both_return _ _ tt refl refl

  state_writes-Alike :
      (changes : CoreChange m)
      → Alike Any (state_writes m changes) (csr_texts m changes.core (csr_change_indices m changes))
  unfolding state_writes
  state_writes-Alike changes = and_then (csrs-Alike changes.core (csr_change_indices m changes)) _

  steps-Alike : (detail : StepDetail m) → Alike Any (trace_step m detail) (print_step m detail)
  unfolding trace_step print_step
  steps-Alike detail = elim (Option-cases detail.inst) [
    | inl missing ↦ rw missing (
        bind-same Any (assert (is_empty_changes m detail.changes))
          λ _. both_return [] [] tt refl refl)
    | inr (inst, there) ↦
        rw (there, trace_step, print_step)
          (bind-Alike Any (state_writes-Alike detail.changes)
            λ writes texts _. both_return _ _ tt refl refl)
  ]

  loop-SameExit :
      (p : Profile) (fuel : ℕ) (sim : Simulator p m) (log : List PokedexLog) (out : List String)
      → Alike SameExit
          (loop p m (json_file_tracer m) fuel sim log)
          (loop p m (stdout_tracer m) fuel sim out)
  unfolding loop
  loop-SameExit p zero sim log out = both_return none none tt refl refl
  loop-SameExit p (suc fuel) sim log out = elim (Option-cases (is_exited p m sim)) [
    | inr (code, exited) ↦ rw (exited, loop) (both_return _ _ refl refl refl)
    | inl running ↦
        rw (running, loop)
          (bind-same SameExit (step_trace p m sim) λ (detail, sim').
            bind-Alike SameExit (steps-Alike detail)
              λ entries lines _. loop-SameExit p fuel sim' (log ++ entries) (out ++ lines))
  ]

  -- A run that prints and a run that logs, of the same program and on the same fuel, both end with
  -- the same exit code, both run out of fuel, both report the same error, or both panic.
  pub run_subcommand-SameExit :
      (p : Profile) (fuel : ℕ) (core : m.State) (bus : Bus) (elf_entry : ℕ)
      → Alike SameExit
          (run_subcommand p m (json_file_tracer m) fuel core bus elf_entry)
          (run_subcommand p m (stdout_tracer m) fuel core bus elf_entry)
  unfolding run_subcommand
  run_subcommand-SameExit p fuel core bus elf_entry =
      bind-Alike SameExit
        (loop-SameExit p fuel
          (reset_core p m (new p m core bus) (unwrap_or bus.reset_vector elf_entry)) _ _)
        ended-SameExit
