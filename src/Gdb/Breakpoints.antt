-- ===== src/Gdb/Breakpoints.antt =====
-- `TargetWrapper` of simulator/src/gdb/run.rs: its breakpoints, the requests that it refuses, and
-- the session that `run_subcommand` of simulator/src/gdb/mod.rs starts.
pub mod Laws
use pokedex.Prelude.{
  ℕ, zero, suc, not, Bool, true, false, ◌||◌, Option, none, some, List, [], ◌∷◌, String, ◌==◌,
  if◌then◌else◌, Outcome, ok, err, ◌>>=◌,
}
use pokedex.Bus.Memory.{BusError}
use pokedex.Gdb.Poll.{PokedexTarget, StopReason, exited, sw_break, has, poll}
use pokedex.Gdb.Chunks.{TargetError, non_fatal}
use pokedex.Gdb.Registers.{RiscvRegId}
use pokedex.Gdb.Xml.{Config, build_target_xml}

pub record TargetConfig : Type 0 where
  pub elf_path : List ℕ
  pub target_xml : String

-- `HashSet::insert` and `HashSet::remove`; the set is a list of its elements.
unfoldable pub insert : List ℕ → ℕ → List ℕ
insert set addr = if has set addr then set else addr ∷ set

unfoldable pub remove : List ℕ → ℕ → List ℕ
remove [] addr = []
remove (b ∷ bs) addr = let rest = remove bs addr in if b == addr then rest else b ∷ rest

-- The reasons to stop that the event loop reports.
pub data Event : Type 0 where
  target_stopped : StopReason → Event
  sigint : Event

module _ (t : PokedexTarget) where
  open t use {Target}

  pub record TargetWrapper : Type 0 where
    pub inner : Target
    pub config : TargetConfig
    pub breakpoints : List ℕ

  -- `TargetWrapper::from`
  unfoldable pub wrap : Target → TargetConfig → TargetWrapper
  wrap inner config = record { inner = inner; config = config; breakpoints = [] }

  unfoldable pub add_sw_breakpoint : TargetWrapper → ℕ → Outcome TargetError (Bool × TargetWrapper)
  add_sw_breakpoint w addr =
      ok (
        true,
        record { inner = w.inner; config = w.config; breakpoints = insert w.breakpoints addr },
      )

  unfoldable pub remove_sw_breakpoint :
      TargetWrapper → ℕ → Outcome TargetError (Bool × TargetWrapper)
  remove_sw_breakpoint w addr =
      ok (
        true,
        record { inner = w.inner; config = w.config; breakpoints = remove w.breakpoints addr },
      )

  unfoldable pub resume : TargetWrapper → Outcome TargetError TargetWrapper
  resume w = ok w

  unfoldable pub write_register :
      TargetWrapper → RiscvRegId → List ℕ → Outcome TargetError TargetWrapper
  write_register w reg_id bytes = err non_fatal

  -- `Ok(Event::TargetStopped(..))`, with the target as `poll` leaves it
  abbrev pub stopped :
      TargetWrapper
      → Option (StopReason × Target)
      → Outcome BusError (Option (Event × TargetWrapper))
  stopped w none = ok none
  stopped w (some (reason, inner)) = ok (
      some (
        target_stopped reason,
        record { inner = inner; config = w.config; breakpoints = w.breakpoints },
      ))

  -- `EventLoop::wait_for_stop_reason`; `none` where the fuel of `poll` runs out.
  unfoldable pub wait_for_stop_reason :
      ℕ → TargetWrapper → Outcome BusError (Option (Event × TargetWrapper))
  unfolding poll
  wait_for_stop_reason fuel w = do polled ← poll t w.breakpoints fuel w.inner; stopped w polled

  -- `EventLoop::on_interrupt`
  unfoldable pub on_interrupt : TargetWrapper → Outcome TargetError (Option Event)
  on_interrupt w = ok (some sigint)

  -- The target that `run_subcommand` hands to the debugger's protocol.
  unfoldable pub session : List ℕ → Target → Outcome BusError TargetWrapper
  unfolding build_target_xml wrap
  session elf_path sim = do
    target_xml ← build_target_xml (record { xlen = 32; flen = 32; vlen = 256 })
    ok (wrap sim (record { elf_path = elf_path; target_xml = target_xml }))
