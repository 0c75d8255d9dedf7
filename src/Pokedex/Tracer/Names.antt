-- ===== src/Pokedex/Tracer/Names.antt =====
-- The names of the CSRs tell them apart.
use pokedex.Prelude.{
  ℕ, ◌≡◌, refl, Bool, true, false, Option, none, some, Option-cases, List, [], ◌∷◌, String, str_eq,
  ◌==◌, leb, if◌then◌else◌, Bool-cases, all, arith, ok, assert, >>=-eq-ok, inl, inr,
}
use pokedex.Pokedex.Tracer.{csr_names, match_number, name_of_csr}

-- the number of a name
abbrev number_of : List (ℕ × String) → String → Option ℕ
number_of [] s = none
number_of ((key, name) ∷ arms) s =
    let rest = number_of arms s in if str_eq s name then some key else rest

abbrev is_number : Option ℕ → ℕ → Bool
is_number none n = false
is_number (some k) n = k == n

is_number-eq-some : (o : Option ℕ) (n : ℕ) → is_number o n ≡ true → o ≡ some n
is_number-eq-some none n h = cc
is_number-eq-some (some k) n h = ground arith

table_inverse : all (λ (n, s). is_number (number_of csr_names s) n) csr_names ≡ true
table_inverse = refl

match_number-all :
    (f : ℕ × String → Bool) (arms : List (ℕ × String)) (n : ℕ) {s : String}
    → all f arms ≡ true
    → match_number arms n ≡ some s
    → f (n, s) ≡ true
match_number-all f [] n h found = cc
match_number-all f ((key, name) ∷ arms) n {s} h found = elim (Bool-cases (n == key)) [
  | inl here ↦
      let keys : key ≡ n = ground arith in
      let names : name ≡ s = ground arith in rw (← keys, ← names) (ground arith)
  | inr there ↦ match_number-all f arms n (ground arith) (rw there at found)
]

name_of_csr-eq-ok :
    (a : ℕ) {s : String} → name_of_csr {E = ℕ} a ≡ ok s → match_number csr_names a ≡ some s
unfolding name_of_csr
name_of_csr-eq-ok a {s} h =
    let (_, _, rest) = >>=-eq-ok (assert {E = ℕ} (leb a 0xFFF)) _ h in
    elim (Option-cases (match_number csr_names a)) [
      | inl missing ↦ let wrong = rw missing at rest in cc
      | inr (t, found) ↦ let right = rw found at rest in let same : t ≡ s = cc in rw (← same) found
    ]

-- Two CSR numbers that have the same name in the log are the same.
pub name_of_csr_injective :
    (a b : ℕ) {s : String} → name_of_csr {E = ℕ} a ≡ ok s → name_of_csr {E = ℕ} b ≡ ok s → a ≡ b
name_of_csr_injective a b {s} ha hb =
    let f : ℕ × String → Bool = λ (n, s). is_number (number_of csr_names s) n in
    let at_a =
      is_number-eq-some (number_of csr_names s) a
        (match_number-all f csr_names a table_inverse (name_of_csr-eq-ok a ha)) in
    let at_b =
      is_number-eq-some (number_of csr_names s) b
        (match_number-all f csr_names b table_inverse (name_of_csr-eq-ok b hb)) in
    some_injective at_a at_b
  where
    some_injective : {o : Option ℕ} {x y : ℕ} → o ≡ some x → o ≡ some y → x ≡ y
    some_injective hx hy = ground arith
