-- ===== src/Model/Desc.antt =====
-- `Privileges`, `ModelDesc`, `cstr_span` and the creation of the handle of simulator/src/model/mod.rs,
-- and the loader of simulator/src/model/ffi.rs. The texts of the raw
-- description are those that its pointers point to.
pub mod Valid
use Prim.Native.Char.{Char, code}
use Prim.Native.String.{len}
use pokedex.Util.Text.{contains}
use pokedex.Prelude.{
  ℕ, ◌%◌, ◌^◌, Bool, true, false, not, ◌&&◌, ◌||◌, List, [], ◌∷◌, String, ◌==◌, leb, ltb,
  if◌then◌else◌, Outcome, ok, panic, assert, ◌>>=◌, ◌>>◌, as_u8, as_u16, str_eq, Option, none, some,
}

pub record Privileges : Type 0 where
  pub machine : Bool
  pub supervisor : Bool
  pub user : Bool

unfoldable pub default : Privileges
default = record { machine = false; supervisor = false; user = false }

-- the `match` on a character
unfoldable pub set_privilege {ℓ} : {E : Type ℓ} → Char → Privileges → Outcome E Privileges
set_privilege c privs =
    if code c == b'M'
    then ok (record privs { machine = true })
    else if code c == b'S'
    then ok (record privs { supervisor = true })
    else if code c == b'U'
    then ok (record privs { user = true })
    else panic

-- the `for_each`
unfoldable pub set_privileges {ℓ} : {E : Type ℓ} → String → Privileges → Outcome E Privileges
unfolding set_privilege
set_privileges String.[] privs = ok privs
set_privileges (String.◌∷◌ c s) privs = do privs' ← set_privilege c privs; set_privileges s privs'

-- `Privileges::new`; the length of a text is its number of bytes.
unfoldable pub new {ℓ} : {E : Type ℓ} → String → Outcome E Privileges
unfolding set_privileges default
new p = do assert (leb (len p) 3); set_privileges p default

-- `pokedex_model_description`
pub record RawModelDesc : Type 0 where
  pub xlen : ℕ
  pub vlen : ℕ
  pub flen : ℕ
  pub model_isa : String
  pub model_priv : String

pub record ModelDesc : Type 0 where
  pub privs : Privileges
  pub xlen : ℕ
  pub vlen : ℕ
  pub flen : ℕ
  pub isa : String

abbrev u16_max : ℕ
u16_max = 65535

unfoldable pub from_raw_model_desc {ℓ} : {E : Type ℓ} → RawModelDesc → Outcome E ModelDesc
unfolding new
from_raw_model_desc rmd = do
  assert (rmd.xlen == 32)
  assert (rmd.flen == 0 || rmd.flen == 32)
  assert (rmd.vlen % 8 == 0 && ltb rmd.vlen u16_max)
  let xlen = as_u8 rmd.xlen
  let vlen = as_u16 rmd.vlen
  let flen = as_u8 rmd.flen
  privs ← new rmd.model_priv
  ok (record { privs = privs; xlen = xlen; vlen = vlen; flen = flen; isa = rmd.model_isa })

unfoldable pub has_scalar_fp : ModelDesc → Bool
has_scalar_fp desc = not (desc.flen == 0)

-- The bytes before the first zero, or all of them.
unfoldable pub cstr_span : List ℕ → List ℕ
cstr_span [] = []
cstr_span (b ∷ bs) = let rest = cstr_span bs in if b == 0 then [] else b ∷ rest

-- `Loader`, with what `dlopen` and `dlsym` gave: the model that is exported, and its ABI version.
pub record Loader (M : Type 0) : Type 0 where
  pub export : M

unfoldable pub assert_abi_version {ℓ} : {E : Type ℓ} → String → String → Outcome E (Unit {0})
assert_abi_version abi_exe abi_lib = assert (str_eq abi_exe abi_lib)

-- `Loader::from_dylib`: a path has no NUL in it, and the library and the entry point may be missing.
abbrev loaded {ℓ} :
    {E : Type ℓ} {M : Type 0} → String → Option (Option (M × String)) → Outcome E (Loader M)
loaded abi_exe none = panic
loaded abi_exe (some none) = panic
loaded abi_exe (some (some (vtable, abi_lib))) = do
  assert_abi_version abi_exe abi_lib
  ok (record { export = vtable })

unfoldable pub from_dylib {ℓ} :
    {E : Type ℓ} {M : Type 0}
    → String
    → String
    → Option (Option (M × String))
    → Outcome E (Loader M)
unfolding assert_abi_version
from_dylib abi_exe so_path opened = do assert (not (contains 0 so_path)); loaded abi_exe opened

-- `ModelHandle`
pub record ModelHandle (S : Type 0) : Type 0 where
  pub core : S
  pub model_desc : ModelDesc

-- `ModelHandle::new`, with what `create` and `get_description` of the vtable gave.
unfoldable pub new_handle {ℓ} :
    {E : Type ℓ} {S : Type 0} → Option S → (S → RawModelDesc) → Outcome E (ModelHandle S)
unfolding from_raw_model_desc
new_handle none get_description = panic
new_handle (some core) get_description = do
  model_desc ← from_raw_model_desc (get_description core)
  ok (record { core = core; model_desc = model_desc })
