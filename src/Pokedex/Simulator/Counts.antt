-- ===== src/Pokedex/Simulator/Counts.antt =====
-- What the counters and the bus keep over the calls of the core.
use pokedex.Prelude.{
  ℕ, ◌+◌, ◌%◌, ◌^◌, ◌<◌, ◌≡◌, inl, inr, refl, ◌∙◌, ◌==◌, List, Outcome, ok, assert, ◌>>=◌,
  >>=-eq-ok, Profile, arith, from_le_bytes, to_le_bytes,
}
use pokedex.Bus.Memory.{BusError}
use pokedex.Bus.Space
use pokedex.Bus.Space.{Bus, find, Addressable, memory, mmio, device_write}
use pokedex.Model.{
  ModelExport, Program, return, call, Request, inst_fetch_2, read_mem_1, read_mem_2, read_mem_4,
  write_mem_1, write_mem_2, write_mem_4, amo_mem_4, lr_mem_4, sc_mem_4, Reply, StepDetail,
  detail_of_step,
}
use pokedex.Pokedex.Callbacks
use pokedex.Pokedex.Callbacks.{
  Global, Statistic, BusResult, done, failed, read_word, write_word, increment_u64,
}
use pokedex.Bus.Atomic.{AtomicOp, do_arith_u32}
use pokedex.Model.Decode.{amo_op_from_raw}
use pokedex.Pokedex.Callbacks.Laws.{handle-eq-ok}
use pokedex.Pokedex.Simulator.{
  Simulator, try_write, to_c_int, answer, run_program, counted, step_trace,
}

-- A call changes neither the number of steps nor which cell the bus watches.
record Keeps (g g' : Global) : Type 0 where
  pub steps : g'.stats.step_count ≡ g.stats.step_count
  pub watched : g'.bus.exit_state ≡ g.bus.exit_state
  pub vector : g'.bus.reset_vector ≡ g.bus.reset_vector

Keeps-refl : (g : Global) → Keeps g g
Keeps-refl g = record { steps = refl; watched = refl; vector = refl }

Keeps-trans : {g h k : Global} → Keeps g h → Keeps h k → Keeps g k
Keeps-trans a b = record {
  steps = b.steps ∙ a.steps;
  watched = b.watched ∙ a.watched;
  vector = b.vector ∙ a.vector;
}

module _ (p : Profile) where
  write-Keeps :
      (g : Global) (addr : ℕ) (bytes : List ℕ) {bus : Bus}
      → Space.write p g.bus addr bytes ≡ ok bus
      → Keeps g (record g { bus = bus })
  unfolding Space.write
  write-Keeps g addr bytes {bus} h = ground arith

  read_word-Keeps :
      (g : Global) (addr len : ℕ) {r : BusResult ℕ} {g' : Global}
      → read_word p g addr len ≡ ok (r, g')
      → Keeps g g'
  read_word-Keeps g addr len {r} {g'} h = elim (handle-eq-ok (Space.read p g.bus addr len) _ _ h) [
    | inl (bytes, _, e) ↦ let same : g ≡ g' = cc in rw (← same) (Keeps-refl g)
    | inr (_, e) ↦ let same : g ≡ g' = cc in rw (← same) (Keeps-refl g)
  ]

  write_word-Keeps :
      (g : Global) (addr len value : ℕ) {r : BusResult (Unit {0})} {g' : Global}
      → write_word p g addr len value ≡ ok (r, g')
      → Keeps g g'
  write_word-Keeps g addr len value {r} {g'} h =
      elim (handle-eq-ok (Space.write p g.bus addr (to_le_bytes len value)) _ _ h) [
        | inl (bus, put, e) ↦
            let same : record g { bus = bus } ≡ g' = cc in
            rw (← same) (write-Keeps g addr (to_le_bytes len value) put)
        | inr (_, e) ↦ let same : g ≡ g' = cc in rw (← same) (Keeps-refl g)
      ]

  inst_fetch_2-Keeps :
      (g : Global) (addr : ℕ) {r : BusResult ℕ} {g' : Global}
      → Callbacks.inst_fetch_2 p g addr ≡ ok (r, g')
      → Keeps g g'
  unfolding Callbacks.inst_fetch_2
  inst_fetch_2-Keeps g addr h =
      let (_, _, h1) = >>=-eq-ok (assert (addr % 2 == 0)) _ h in
      let (count, _, h2) = >>=-eq-ok (increment_u64 p g.stats.fetch_count) _ h1 in
      let kept =
        read_word-Keeps (record g { stats = record g.stats { fetch_count = count } }) addr 2 h2 in
      record { steps = kept.steps; watched = kept.watched; vector = kept.vector }

  amo_mem_u32-Keeps :
      (g : Global) (addr : ℕ) (op : AtomicOp) (value : ℕ) {r : BusResult ℕ} {g' : Global}
      → Callbacks.amo_mem_u32 p g addr op value ≡ ok (r, g')
      → Keeps g g'
  unfolding Callbacks.amo_mem_u32
  amo_mem_u32-Keeps g addr op value {r} {g'} h =
      elim (handle-eq-ok (Space.read p g.bus addr 4) _ _ h) [
        | inr (_, e) ↦ let same : g ≡ g' = cc in rw (← same) (Keeps-refl g)
        | inl (bytes, _, h1) ↦
            let put_bytes = to_le_bytes 4 (do_arith_u32 op (from_le_bytes bytes) value) in
            elim (handle-eq-ok (Space.write p g.bus addr put_bytes) _ _ h1) [
              | inl (bus, put, e) ↦
                  let same : record g { bus = bus } ≡ g' = cc in
                  rw (← same) (write-Keeps g addr put_bytes put)
              | inr (_, e) ↦ let same : g ≡ g' = cc in rw (← same) (Keeps-refl g)
            ]
      ]

  abbrev with_reply :
      {A : Type 0} → (A → Reply) → Outcome BusError (A × Global) → Outcome BusError (Reply × Global)
  with_reply f m = m >>= λ (r, h). ok (f r, h)

  replied :
      {A : Type 0} (m : Outcome BusError (A × Global)) (f : A → Reply) (g : Global) {reply : Reply}
      {g' : Global}
      → ((r : A) (h : Global) → m ≡ ok (r, h) → Keeps g h)
      → with_reply f m ≡ ok (reply, g')
      → Keeps g g'
  replied m f g {reply} {g'} keeps e =
      let ((r, h), made, is) = >>=-eq-ok m (λ (r, h). ok (f r, h)) e in
      let same : h ≡ g' = cc in rw (← same) (keeps r h made)

  answer-Keeps :
      (request : Request) (g : Global) {reply : Reply} {g' : Global}
      → answer p request g ≡ ok (reply, g')
      → Keeps g g'
  unfolding answer Callbacks.read_mem_u8 Callbacks.read_mem_u16 Callbacks.read_mem_u32
      Callbacks.write_mem_u8 Callbacks.write_mem_u16 Callbacks.write_mem_u32
  answer-Keeps (inst_fetch_2 addr) g h =
      replied _ try_write g (λ _ _ e. inst_fetch_2-Keeps g addr e) h
  answer-Keeps (read_mem_1 addr) g h = replied _ try_write g (λ _ _ e. read_word-Keeps g addr 1 e) h
  answer-Keeps (read_mem_2 addr) g h =
      replied (Callbacks.read_mem_u16 p g addr) try_write g
        (λ _ _ e.
          let (_, _, e') = >>=-eq-ok (assert (addr % 2 == 0)) _ e in read_word-Keeps g addr 2 e')
        h
  answer-Keeps (read_mem_4 addr) g h =
      replied (Callbacks.read_mem_u32 p g addr) try_write g
        (λ _ _ e.
          let (_, _, e') = >>=-eq-ok (assert (addr % 4 == 0)) _ e in read_word-Keeps g addr 4 e')
        h
  answer-Keeps (write_mem_1 addr value) g h =
      replied _ to_c_int g (λ _ _ e. write_word-Keeps g addr 1 value e) h
  answer-Keeps (write_mem_2 addr value) g h =
      replied _ to_c_int g (λ _ _ e. write_word-Keeps g addr 2 value e) h
  answer-Keeps (write_mem_4 addr value) g h =
      replied _ to_c_int g (λ _ _ e. write_word-Keeps g addr 4 value e) h
  answer-Keeps (amo_mem_4 addr amo_op value) g h =
      let (op, _, h1) = >>=-eq-ok (amo_op_from_raw amo_op) _ h in
      replied (Callbacks.amo_mem_u32 p g addr op value) try_write g
        (λ _ _ e. amo_mem_u32-Keeps g addr op value e) h1
  answer-Keeps (lr_mem_4 addr) g h = cc
  answer-Keeps (sc_mem_4 addr value) g h = cc

  run_program-Keeps :
      {S : Type 0} (program : Program S) (g : Global) {code : ℕ} {core : S} {g' : Global}
      → run_program p program g ≡ ok (code, core, g')
      → Keeps g g'
  unfolding run_program
  run_program-Keeps (return code core) g {g' = g'} h =
      let same : g ≡ g' = cc in rw (← same) (Keeps-refl g)
  run_program-Keeps (call request k) g h =
      let ((reply, g₁), answered, rest) = >>=-eq-ok (answer p request g) _ h in
      Keeps-trans (answer-Keeps request g answered) (run_program-Keeps (k reply) g₁ rest)

  counted-count :
      (g : Global) {g₁ : Global}
      → counted p g ≡ ok g₁
      → g.stats.step_count + 1 < 2 ^ 64
      → (g₁.stats.step_count ≡ g.stats.step_count + 1)
        × (g₁.bus.exit_state ≡ g.bus.exit_state)
        × (g₁.bus.reset_vector ≡ g.bus.reset_vector)
  counted-count g h lt = ground arith

  -- If a traced step succeeds and the count of steps is below its greatest value, the count has
  -- grown by one, and the bus watches the same exit cell and has the same reset vector, whatever
  -- calls the core has made.
  pub step_trace-counts :
      (m : ModelExport) (sim : Simulator p m) {detail : StepDetail m} {sim' : Simulator p m}
      → step_trace p m sim ≡ ok (detail, sim')
      → sim.global.stats.step_count + 1 < 2 ^ 64
      → (sim'.global.stats.step_count ≡ sim.global.stats.step_count + 1)
        × (sim'.global.bus.exit_state ≡ sim.global.bus.exit_state)
        × (sim'.global.bus.reset_vector ≡ sim.global.bus.reset_vector)
  unfolding step_trace
  step_trace-counts m sim {detail} {sim'} h lt =
      let g = sim.global in
      let (g₁, counts, h1) = >>=-eq-ok (counted p sim.global) _ h in
      let ((code, core', g'), ran, h2) = >>=-eq-ok (run_program p (m.step sim.core) g₁) _ h1 in
      let (d, _, h3) =
        >>=-eq-ok (detail_of_step m code core')
          (λ detail. ok (detail, record { core = core'; global = g' })) h2 in
      let kept = run_program-Keeps (m.step sim.core) g₁ ran in
      let same : record { core = core'; global = g' } ≡ sim' = cc in
      let (grown, watched, vector) = counted-count g counts lt in
      rw (← same) (kept.steps ∙ grown, kept.watched ∙ watched, kept.vector ∙ vector)
