-- ===== src/Gdb/Xml/Total.antt =====
-- Where `build_target_xml` reaches an `unreachable!`.
use pokedex.Prelude.{◌≡◌, ◌⊎◌, ◌↔◌, arith, panic}
use pokedex.Gdb.Xml.{
  Config, fpu_type, print_target_xml_fpu_features, arch_of, print_target_xml, build_target_xml,
}

-- The lengths that the description has a word for.
abbrev pub IsPrintable : Config → Type 0
IsPrintable config =
    ((config.xlen ≡ 32) ⊎ (config.xlen ≡ 64))
    × ((config.flen ≡ 0) ⊎ ((config.flen ≡ 32) ⊎ (config.flen ≡ 64)))

-- The description of a configuration cannot be written exactly when its length of a register is
-- neither 32 nor 64 or its length of a float is none of 0, 32 and 64.
pub build_target_xml-panic_iff :
    (config : Config) → (build_target_xml {E = ⊥} config ≡ panic) ↔ (¬ IsPrintable config)
unfolding build_target_xml print_target_xml print_target_xml_fpu_features arch_of fpu_type
build_target_xml-panic_iff config =
    ((λ panics (lengths, floats). ground arith), (λ outside. ground arith))
