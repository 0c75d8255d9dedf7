-- ===== src/Difftest/SpikeParse/Tests.antt =====
-- Lines of simulator/src/difftest/assets/example.spike.log.
use pokedex.Difftest.SpikeText.{tokenize_spike_log_line, sew, lmul, csr, vreg, unknown, mem_literal}
use pokedex.Prelude.{
  String, ℕ, List, ◌++◌, ◌↔◌, arith, true, none, [], ◌∷◌, ◌≡◌, refl, ok, err, Outcome,
}
use pokedex.Util.Text.{lines, split_whitespace, is_whitespace, to_digit, from_str_radix}
use pokedex.Difftest.SpikeLog.{
  Commit, write_xreg, write_csr_reg, write_vec_ctx, load, store, write_vreg_bytes, from_logs,
}
use pokedex.Util.Text.Print.{hex, decimal, digits, digit_char, width_of}
use pokedex.Difftest.SpikeText.{
  Token, core_literal, core_id, number_literal, hexadecimal, instruction, xreg, vl, str_to_token,
  is_digit,
}
use pokedex.Difftest.SpikeParse.Grammar.{Line}
use pokedex.Difftest.SpikeParse.Complete.{parse_single_commit_iff}
use pokedex.Difftest.SpikeParse.Lexed.{Settles, backend_from_log-Settles}
use pokedex.Difftest.SpikeParse.Printer.{IsSmall, print_commit}
use pokedex.Difftest.SpikeParse.Spelled.{
  EachSpells, backend_from_log-Spells, print_log, backend_from_log-print_log,
}
use pokedex.Difftest.SpikeParse.Typed.{IsTyped, parse_single_commit-IsTyped}
use pokedex.Difftest.SpikeParse.Rest.{parse_single_commit-idle, str_to_token-wide}
use pokedex.Difftest.SpikeParse.{
  commit_of_line, backend_from_log, bad_line, unexpected_token, invalid_value, parse_single_commit,
}

abbrev head_tokens : List Token
head_tokens =
    core_literal ∷ core_id "0" ∷ number_literal "3" ∷ hexadecimal "80" ∷ instruction "13" ∷ []

abbrev xreg_tokens : List Token
xreg_tokens =
    core_literal
    ∷ core_id "0"
    ∷ number_literal "3"
    ∷ hexadecimal "80"
    ∷ instruction "13"
    ∷ xreg "5"
    ∷ hexadecimal "1f"
    ∷ []

abbrev xreg_commit : Commit
xreg_commit = record {
  core_id = 0;
  privilege = 3;
  pc = 0x80;
  instruction = 0x13;
  state_changes = write_xreg 5 0x1f ∷ [];
}

abbrev csr_commit : Commit
csr_commit = record {
  core_id = 1;
  privilege = 3;
  pc = 0x80000004;
  instruction = 0x30529073;
  state_changes =
      write_csr_reg 773 "mtvec" 0x8000000c
      ∷ write_vec_ctx 8 4 true 32
      ∷ write_vreg_bytes 3 (1 ∷ 2 ∷ 3 ∷ 255 ∷ [])
      ∷ load 0x2000
      ∷ store 0x3000 7
      ∷ [];
}

xreg_commit-IsSmall : IsSmall xreg_commit
xreg_commit-IsSmall = record {
  core_id = omega arith;
  privilege = omega arith;
  pc = omega arith;
  instruction = omega arith;
  changes = ((omega arith, omega arith), tt);
}

csr_commit-IsSmall : IsSmall csr_commit
unfolding is_whitespace
csr_commit-IsSmall = record {
  core_id = omega arith;
  privilege = omega arith;
  pc = omega arith;
  instruction = omega arith;
  changes = (
    (omega arith, omega arith, refl, refl),
    (
      (omega arith, omega arith, omega arith),
      (
        (omega arith, omega arith, refl, omega arith),
        (omega arith, ((omega arith, omega arith), tt)),
      ),
    ),
  );
}

printed_line :
    print_commit xreg_commit ≡ "core 0: 3 0x0000000000000080 (0x00000013) x5 0x000000000000001f "
unfolding print_commit hex decimal digits digit_char width_of
printed_line = refl

read_back :
    backend_from_log (print_log (csr_commit ∷ xreg_commit ∷ []))
    ≡ ok (from_logs (csr_commit ∷ xreg_commit ∷ []))
read_back =
    backend_from_log-print_log (csr_commit ∷ xreg_commit ∷ [])
      (csr_commit-IsSmall, (xreg_commit-IsSmall, tt))

-- The first and the fourth line of the example.
abbrev pub example_log : String
example_log =
    "core   0: 3 0x800000ac (0x30529073) c773_mtvec 0x8000000c\ncore   0: 3 0x000000000000100c (0x0182b283) x5  0x0000000080000034 mem 0x0000000000001018\n"

abbrev pub csr_step : Commit
csr_step = record {
  core_id = 0;
  privilege = 3;
  pc = 0x800000ac;
  instruction = 0x30529073;
  state_changes = write_csr_reg 773 "mtvec" 0x8000000c ∷ [];
}

abbrev pub load_step : Commit
load_step = record {
  core_id = 0;
  privilege = 3;
  pc = 0x100c;
  instruction = 0x0182b283;
  state_changes = write_xreg 5 0x80000034 ∷ load 0x1018 ∷ [];
}

abbrev csr_step_tokens : List Token
csr_step_tokens =
    core_literal
    ∷ core_id "0"
    ∷ number_literal "3"
    ∷ hexadecimal "800000ac"
    ∷ instruction "30529073"
    ∷ csr "c773_mtvec"
    ∷ hexadecimal "8000000c"
    ∷ []

abbrev load_step_tokens : List Token
load_step_tokens =
    core_literal
    ∷ core_id "0"
    ∷ number_literal "3"
    ∷ hexadecimal "000000000000100c"
    ∷ instruction "0182b283"
    ∷ xreg "5"
    ∷ hexadecimal "0000000080000034"
    ∷ mem_literal
    ∷ hexadecimal "0000000000001018"
    ∷ []

csr_step-Line : Line csr_step_tokens csr_step
unfolding parse_single_commit from_str_radix to_digit
csr_step-Line = (parse_single_commit_iff csr_step_tokens csr_step).0 refl

load_step-Line : Line load_step_tokens load_step
unfolding parse_single_commit from_str_radix to_digit
load_step-Line = (parse_single_commit_iff load_step_tokens load_step).0 refl

pub example_log-EachSpells : EachSpells (lines example_log) (csr_step ∷ load_step ∷ [])
unfolding lines split_whitespace is_whitespace is_digit
example_log-EachSpells = (
  record {
    tokens = csr_step_tokens;
    words = refl;
    printed = (tt, (refl, (refl, (refl, (refl, (refl, (refl, tt)))))));
    grammar = csr_step-Line;
  },
  (
    record {
      tokens = load_step_tokens;
      words = refl;
      printed = (tt, (refl, (refl, (refl, (refl, (refl, (refl, (tt, (refl, tt)))))))));
      grammar = load_step-Line;
    },
    tt,
  ),
)

backend_from_log-Spells_example :
    backend_from_log example_log ≡ ok (from_logs (csr_step ∷ load_step ∷ []))
backend_from_log-Spells_example =
    backend_from_log-Spells example_log (csr_step ∷ load_step ∷ []) example_log-EachSpells

parse_single_commit_iff_example :
    (parse_single_commit xreg_tokens ≡ ok xreg_commit) ↔ Line xreg_tokens xreg_commit
parse_single_commit_iff_example = parse_single_commit_iff xreg_tokens xreg_commit

parse_single_commit-idle_example :
    parse_single_commit (xreg_tokens ++ vl "8" ∷ xreg "6" ∷ []) ≡ ok xreg_commit
unfolding parse_single_commit from_str_radix to_digit
parse_single_commit-idle_example =
    parse_single_commit-idle xreg_tokens (vl "8") (xreg "6" ∷ []) xreg_commit (tt, tt) refl

parse_single_commit-IsTyped_example : IsTyped xreg_commit
unfolding parse_single_commit from_str_radix to_digit
parse_single_commit-IsTyped_example = parse_single_commit-IsTyped xreg_tokens xreg_commit refl

str_to_token-wide_example : str_to_token {E = ℕ} "éa" ≡ Outcome.panic
str_to_token-wide_example = str_to_token-wide "é" "a" refl refl

backend_from_log-Settles_example : Settles (backend_from_log "core 0: 3 0x80 (0x13) x5 0x1f")
backend_from_log-Settles_example = backend_from_log-Settles "core 0: 3 0x80 (0x13) x5 0x1f" refl

csr_line :
    commit_of_line 0 "core   0: 3 0x800000ac (0x30529073) c773_mtvec 0x8000000c"
    ≡ ok (record {
      core_id = 0;
      privilege = 3;
      pc = 2147483820;
      instruction = 810717299;
      state_changes = write_csr_reg 773 "mtvec" 2147483660 ∷ [];
    })
unfolding commit_of_line is_whitespace str_to_token from_str_radix to_digit
csr_line = refl

store_line :
    commit_of_line 0
      "core   0: 3 0x00000000800000d4 (0x00113c23) mem 0x000000009ffffff8 0x00000000800000c0"
    ≡ ok (record {
      core_id = 0;
      privilege = 3;
      pc = 2147483860;
      instruction = 1129507;
      state_changes = store 2684354552 2147483840 ∷ [];
    })
unfolding commit_of_line is_whitespace str_to_token from_str_radix to_digit
store_line = refl

load_line :
    commit_of_line 0
      "core   0: 3 0x000000000000100c (0x0182b283) x5  0x0000000080000034 mem 0x0000000000001018"
    ≡ ok (record {
      core_id = 0;
      privilege = 3;
      pc = 4108;
      instruction = 25342595;
      state_changes = write_xreg 5 2147483700 ∷ load 4120 ∷ [];
    })
unfolding commit_of_line is_whitespace str_to_token from_str_radix to_digit
load_line = refl

vector_line :
    commit_of_line 0
      "core   0: 3 0x80000118 (0x02056007) e8 mf4 l8 v0  0x0a6750f800ba3527 c8_vstart 0x00000000"
    ≡ ok (record {
      core_id = 0;
      privilege = 3;
      pc = 2147483928;
      instruction = 33906695;
      state_changes =
          write_vec_ctx 8 4 true 8
          ∷ write_vreg_bytes 0 (39 ∷ 53 ∷ 186 ∷ 0 ∷ 248 ∷ 80 ∷ 103 ∷ 10 ∷ [])
          ∷ write_csr_reg 8 "vstart" 0
          ∷ [];
    })
unfolding commit_of_line is_whitespace str_to_token from_str_radix to_digit
vector_line = refl

-- What stands behind a token that begins no change is not read.
rest_ignored :
    commit_of_line 0 "core 0: 3 0x80000118 (0x13) x5 0x1 0x2 x6 0x3"
    ≡ ok (record {
      core_id = 0;
      privilege = 3;
      pc = 2147483928;
      instruction = 19;
      state_changes = write_xreg 5 1 ∷ [];
    })
unfolding commit_of_line is_whitespace str_to_token from_str_radix to_digit
rest_ignored = refl

bad_privilege :
    commit_of_line 4 "core 0: 256 0x80000118 (0x13)"
    ≡ err (bad_line 4 (invalid_value 2 "privilege" "256" "number too large to fit in target type"))
unfolding commit_of_line is_whitespace str_to_token from_str_radix to_digit
bad_privilege = refl

missing_value :
    commit_of_line 4 "core 0: 3 0x80000118 (0x13) x5"
    ≡ err (bad_line 4 (unexpected_token 6 "hex value for X register" none))
unfolding commit_of_line is_whitespace str_to_token from_str_radix to_digit
missing_value = refl

unaligned :
    commit_of_line 4 "core 0: 3 0x80000118 (0x13) v5 0x12"
    ≡ err (bad_line 4 (invalid_value 7 "vrf value" "12" "unaligned hex value"))
unfolding commit_of_line is_whitespace str_to_token from_str_radix to_digit
unaligned = refl

-- `&tok[0..1]` of a token that begins with a character of two bytes
slice_panic : commit_of_line 0 "core 0: 3 é" ≡ Outcome.panic
unfolding commit_of_line is_whitespace str_to_token from_str_radix to_digit
slice_panic = refl

tokens_of_a_line :
    ◌≡◌ {A = Outcome ℕ (List Token)}
      (tokenize_spike_log_line
        "core   0: 3 0x80000100 (0x5e) e8 mf4 l256 c8_vstart 0x00 v24 zz mem m:")
      (ok (
        core_literal
        ∷ core_id "0"
        ∷ number_literal "3"
        ∷ hexadecimal "80000100"
        ∷ instruction "5e"
        ∷ sew "8"
        ∷ lmul "mf4"
        ∷ vl "256"
        ∷ csr "c8_vstart"
        ∷ hexadecimal "00"
        ∷ vreg "24"
        ∷ unknown "zz"
        ∷ mem_literal
        ∷ unknown "m:"
        ∷ []))
unfolding tokenize_spike_log_line str_to_token is_whitespace
tokens_of_a_line = refl
