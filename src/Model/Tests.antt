-- ===== src/Model/Tests.antt =====
-- The description of a small core.
use pokedex.Prelude.{◌≡◌, refl, true, false, ◌↔◌, ok, panic}
use pokedex.Model.Desc.{RawModelDesc, ModelDesc, from_raw_model_desc}
use pokedex.Model.Desc.Valid.{IsDocumented, IsSupported, described, from_raw_model_desc_iff}

abbrev raw : RawModelDesc
raw = record { xlen = 32; vlen = 256; flen = 32; model_isa = "rv32imafc_zve32f"; model_priv = "M" }

abbrev machine_only : ModelDesc
machine_only = record {
  privs = record { machine = true; supervisor = false; user = false };
  xlen = 32;
  vlen = 256;
  flen = 32;
  isa = "rv32imafc_zve32f";
}

taken : from_raw_model_desc {E = ⊥} raw ≡ ok machine_only
unfolding from_raw_model_desc
taken = refl

from_raw_model_desc_iff_example :
    ((from_raw_model_desc {E = ⊥} raw ≡ ok machine_only)
      ↔ ((IsDocumented raw × IsSupported raw) × (machine_only ≡ described raw)))
    × ((from_raw_model_desc {E = ⊥} raw ≡ panic) ↔ (¬ (IsDocumented raw × IsSupported raw)))
from_raw_model_desc_iff_example = from_raw_model_desc_iff raw machine_only

abbrev wide : RawModelDesc
wide = record raw { xlen = 64 }

wide_panics : from_raw_model_desc {E = ⊥} wide ≡ panic
unfolding from_raw_model_desc
wide_panics = refl
