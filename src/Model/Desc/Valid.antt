-- ===== src/Model/Desc/Valid.antt =====
-- The descriptions that `from_raw_model_desc` takes.
use Prim.Native.Char.{Char, code}
use Prim.Native.String.{len}
use pokedex.Prelude.{
  ◌≢◌, ◌<◌, ◌≤◌, ◌⊎◌, ◌↔◌, ◌%◌, ◌≡◌, refl, Bool, true, ◌&&◌, ◌||◌, String, ◌==◌, leb, ltb,
  if◌then◌else◌, ok, panic, arith,
}
use pokedex.Util.Text.{all_chars, contains}
use pokedex.Model.Desc.{
  default, Privileges, set_privilege, set_privileges, new, RawModelDesc, ModelDesc,
  from_raw_model_desc,
}

-- A letter that stands for a privilege mode.
abbrev pub is_privilege : Char → Bool
is_privilege c = code c == b'M' || code c == b'S' || code c == b'U'

-- The modes of a text, and those that are there already.
abbrev pub modes_of : String → Privileges → Privileges
modes_of s privs = record {
  machine = contains b'M' s || privs.machine;
  supervisor = contains b'S' s || privs.supervisor;
  user = contains b'U' s || privs.user;
}

set_privileges-eq :
    (s : String) (privs : Privileges)
    → set_privileges {E = ⊥} s privs
      ≡ (if all_chars is_privilege s then ok (modes_of s privs) else panic)
unfolding set_privileges set_privilege
set_privileges-eq String.[] privs = refl
set_privileges-eq (String.◌∷◌ c s) privs =
    let machine = set_privileges-eq s (record privs { machine = true }) in
    let supervisor = set_privileges-eq s (record privs { supervisor = true }) in
    let user = set_privileges-eq s (record privs { user = true }) in ground arith

-- The lengths that simulator/include/pokedex_interface.h gives as valid, and the letters of the modes.
abbrev pub IsDocumented : RawModelDesc → Type 0
IsDocumented r =
    ((r.xlen ≡ 32) ⊎ (r.xlen ≡ 64))
    × ((r.flen ≡ 0) ⊎ ((r.flen ≡ 32) ⊎ (r.flen ≡ 64)))
    × (all_chars is_privilege r.model_priv ≡ true)

-- What the simulator takes of these.
abbrev pub IsSupported : RawModelDesc → Type 0
IsSupported r =
    (r.xlen ≢ 64) × (r.flen ≢ 64) × (r.vlen % 8 ≡ 0) × (r.vlen < 65535) × (len r.model_priv ≤ 3)

-- What a description says, no number cut.
abbrev pub described : RawModelDesc → ModelDesc
described r = record {
  privs = modes_of r.model_priv default;
  xlen = r.xlen;
  vlen = r.vlen;
  flen = r.flen;
  isa = r.model_isa;
}

abbrev checks : RawModelDesc → Bool
checks r =
    r.xlen == 32
    && (r.flen == 0 || r.flen == 32)
    && (r.vlen % 8 == 0 && ltb r.vlen 65535)
    && leb (len r.model_priv) 3
    && all_chars is_privilege r.model_priv

checks_iff : (r : RawModelDesc) → (checks r ≡ true) ↔ (IsDocumented r × IsSupported r)
checks_iff r = ground arith

from_raw_model_desc-eq :
    (r : RawModelDesc)
    → from_raw_model_desc {E = ⊥} r ≡ (if checks r then ok (described r) else panic)
unfolding from_raw_model_desc new
from_raw_model_desc-eq r = let modes = set_privileges-eq r.model_priv default in ground arith

-- A description is taken exactly if its lengths are among those that the interface documents and
-- neither is 64, a vector is of whole bytes and less than 65535 bits, and the modes are at most three
-- bytes of the letters M, S and U. It then says what the raw one says, no number cut, and has the
-- modes whose letters are there. All other descriptions panic, so also those with a documented length
-- of 64.
pub from_raw_model_desc_iff :
    (r : RawModelDesc) (d : ModelDesc)
    → ((from_raw_model_desc {E = ⊥} r ≡ ok d)
        ↔ ((IsDocumented r × IsSupported r) × (d ≡ described r)))
      × ((from_raw_model_desc {E = ⊥} r ≡ panic) ↔ (¬ (IsDocumented r × IsSupported r)))
from_raw_model_desc_iff r d =
    let (to, from) = checks_iff r in
    let e = from_raw_model_desc-eq r in (ground arith, ground arith)
