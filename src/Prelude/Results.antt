-- ===== src/Prelude/Results.antt =====
-- The outcome of a call that may return an error or panic, and arithmetic on `u32` in the two
-- build profiles: with overflow checks (debug) an overflow panics, without them (release) it wraps.
use Prim.Native.Nat.{ℕ, ◌+◌, ◌%◌, ◌^◌}
use mathlib.Core.Path.{◌≡◌, refl}
use mathlib.Core.Logic.{◌⊎◌, inl, inr}
use mathlib.Core.Bool.{Bool, true, false}
use pokedex.Prelude.Tests.{ltb, if◌then◌else◌}

pub data Outcome {ℓ κ} (E : Type ℓ) (A : Type κ) : Type (ℓ ⊔ κ) where
  ok : A → Outcome E A
  err : E → Outcome E A
  panic : Outcome E A

infixl 5 ◌>>=◌ ◌>>◌
abbrev pub ◌>>=◌ {ℓ κ μ} :
    {E : Type ℓ} {A : Type κ} {B : Type μ} → Outcome E A → (A → Outcome E B) → Outcome E B
panic >>= next = panic
err why >>= next = err why
ok result >>= next = next result

abbrev pub ◌>>◌ {ℓ κ} : {E : Type ℓ} {A : Type κ} → Outcome E (Unit {0}) → Outcome E A → Outcome E A
first >> next = first >>= λ _. next

-- `assert!`
abbrev pub assert {ℓ} : {E : Type ℓ} → Bool → Outcome E (Unit {0})
assert false = panic
assert true = ok tt

-- `ensure!`, `bail!`
abbrev pub ensure {ℓ} : {E : Type ℓ} → Bool → E → Outcome E (Unit {0})
ensure true e = ok tt
ensure false e = err e

-- `unwrap`, `expect` and `unwrap_or_else(|_| panic!(…))`
abbrev pub or_panic {ℓ κ μ} : {E : Type ℓ} {F : Type κ} {A : Type μ} → Outcome E A → Outcome F A
or_panic (ok a) = ok a
or_panic (err e) = panic
or_panic panic = panic

pub or_panic-eq-ok {ℓ κ μ} :
    {E : Type ℓ} {F : Type κ} {A : Type μ} (m : Outcome E A) {a : A}
    → or_panic {F = F} m ≡ ok a
    → m ≡ ok a
or_panic-eq-ok (ok a) h = cc
or_panic-eq-ok (err e) h = cc
or_panic-eq-ok panic h = cc

pub >>=-eq-ok {ℓ κ μ} :
    {E : Type ℓ} {A : Type κ} {B : Type μ} (o : Outcome E A) (next : A → Outcome E B) {out : B}
    → (o >>= next) ≡ ok out
    → (r : A) × (o ≡ ok r) × (next r ≡ ok out)
>>=-eq-ok panic next h = cc
>>=-eq-ok (err why) next h = cc
>>=-eq-ok (ok r) next h = (r, refl, h)

pub Outcome-cases {ℓ κ} :
    {E : Type ℓ} {A : Type κ} (o : Outcome E A)
    → ((a : A) × (o ≡ ok a)) ⊎ ((e : E) × (o ≡ err e)) ⊎ (o ≡ panic)
Outcome-cases (ok a) = inl (a, refl)
Outcome-cases (err e) = inr (inl (e, refl))
Outcome-cases panic = inr (inr refl)

-- A proof that uses a fact by its type alone: the parts of a tuple stay variables.
pub given {ℓ κ} : {A : Type ℓ} {B : Type κ} → A → (A → B) → B
given a f = f a

pub data Profile : Type 0 where
  debug release : Profile

abbrev pub u32_mod : ℕ
u32_mod = 2 ^ 32

abbrev overflow {ℓ} : {E : Type ℓ} → Profile → ℕ → Outcome E ℕ
overflow debug n = panic
overflow release n = ok (n % u32_mod)

-- `a + b` on `u32`
abbrev pub add_u32 {ℓ} : {E : Type ℓ} → Profile → ℕ → ℕ → Outcome E ℕ
add_u32 p a b = if ltb (a + b) u32_mod then ok (a + b) else overflow p (a + b)
