-- ===== src/Gdb/Chunks.antt =====
-- The replies in chunks of simulator/src/gdb/run.rs: `get_exec_file` and `target_description_xml`.
pub mod Whole
use pokedex.Prelude.{
  ℕ, zero, suc, ◌+◌, ◌-◌, ◌≤◌, ◌<◌, min, ◌≡◌, refl, sym, ap, ◌∙◌, Bool, not, List, [], ◌∷◌, ◌++◌,
  leb, if◌then◌else◌, arith, Outcome, ok, err, length, take, drop, bytes_eq, length-take,
  length-drop,
}

-- The bytes copied to the front of the buffer of `size` bytes; the method returns their number.
abbrev pub chunk : List ℕ → ℕ → ℕ → ℕ → List ℕ
chunk bytes offset len size =
    if leb (length bytes) offset
    then []
    else let rest = drop offset bytes in take (min (length rest) (min size len)) rest

unfoldable pub get_exec_file : List ℕ → ℕ → ℕ → ℕ → List ℕ
get_exec_file elf_path offset len size = chunk elf_path offset len size

pub data TargetError : Type 0 where
  non_fatal : TargetError

-- `b"target.xml"`
abbrev pub target_xml_annex : List ℕ
target_xml_annex = b't' ∷ b'a' ∷ b'r' ∷ b'g' ∷ b'e' ∷ b't' ∷ b'.' ∷ b'x' ∷ b'm' ∷ b'l' ∷ []

unfoldable pub target_description_xml : List ℕ → List ℕ → ℕ → ℕ → ℕ → Outcome TargetError (List ℕ)
target_description_xml target_xml annex offset len size =
    if not (bytes_eq annex target_xml_annex)
    then err non_fatal
    else ok (chunk target_xml offset len size)
