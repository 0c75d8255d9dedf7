-- ===== src/Gdb/Chunks/Whole.antt =====
-- The chunks of a reply make up the whole.
use pokedex.Prelude.{
  ℕ, zero, suc, ◌+◌, ◌≤◌, ◌<◌, min, ◌≡◌, refl, sym, ap, ◌∙◌, Bool-cases, inl, inr, true, List, [],
  ◌∷◌, ◌++◌, leb, arith, length, take, drop, length-take, length-drop,
}
use pokedex.Gdb.Chunks.{get_exec_file}

-- A client that asks for the next bytes, `rounds` times.
abbrev pub fetch : ℕ → List ℕ → ℕ → ℕ → ℕ → List ℕ
fetch zero bytes offset len size = []
fetch (suc rounds) bytes offset len size =
    let part = get_exec_file bytes offset len size in
    part ++ fetch rounds bytes (offset + length part) len size

take-drop_append : (k : ℕ) (xs : List ℕ) → take k xs ++ drop k xs ≡ xs
take-drop_append zero xs = refl
take-drop_append (suc k) [] = refl
take-drop_append (suc k) (x ∷ xs) = ap (◌∷◌ x) (take-drop_append k xs)

drop_nil : (n : ℕ) → drop {A = ℕ} n [] ≡ []
drop_nil zero = refl
drop_nil (suc n) = refl

drop-drop : (o k : ℕ) (xs : List ℕ) → drop k (drop o xs) ≡ drop (o + k) xs
drop-drop zero k xs = let e : k ≡ 0 + k = omega arith in ap (λ n. drop n xs) e
drop-drop (suc o) k [] = drop_nil k ∙ sym (drop_nil (suc o + k))
drop-drop (suc o) k (x ∷ xs) =
    let e : suc (o + k) ≡ suc o + k = omega arith in drop-drop o k xs ∙ ap (λ n. drop n (x ∷ xs)) e

drop-eq-nil : (o : ℕ) (xs : List ℕ) → length xs ≤ o → drop o xs ≡ []
drop-eq-nil o [] h = drop_nil o
drop-eq-nil zero (x ∷ xs) h = absurd (omega arith)
drop-eq-nil (suc o) (x ∷ xs) h = drop-eq-nil o xs (omega arith)

fetch_end :
    (rounds : ℕ) (bytes : List ℕ) (offset len size : ℕ)
    → length bytes ≤ offset
    → fetch rounds bytes offset len size ≡ []
unfolding get_exec_file
fetch_end zero bytes offset len size h = refl
fetch_end (suc rounds) bytes offset len size h =
    let past : leb (length bytes) offset ≡ true = ground arith in
    let still : offset + 0 ≡ offset = omega arith in
    rw past (rw still (fetch_end rounds bytes offset len size h))

-- A client that asks for the bytes from an offset on, a positive number at a time into a buffer
-- that is not empty, has got all of them after at most as many rounds as there are bytes left.
pub fetch-eq-drop :
    (rounds : ℕ) (bytes : List ℕ) (offset len size : ℕ)
    → 0 < len
    → 0 < size
    → length bytes ≤ offset + rounds
    → fetch rounds bytes offset len size ≡ drop offset bytes
unfolding get_exec_file
fetch-eq-drop zero bytes offset len size hl hs le = sym (drop-eq-nil offset bytes (omega arith))
fetch-eq-drop (suc rounds) bytes offset len size hl hs le =
    elim (Bool-cases (leb (length bytes) offset)) [
      | inl past ↦
          fetch_end (suc rounds) bytes offset len size (ground arith)
          ∙ sym (drop-eq-nil offset bytes (ground arith))
      | inr inside ↦
          let rest = drop offset bytes in
          let k = min (length rest) (min size len) in
          let got : length (take k rest) ≡ k = omega (arith, length-take k rest) in
          let some_left = length-drop offset bytes in
          let grows : 0 < k = ground arith in
          rw inside (
            rw got (
              ap (◌++◌ (take k rest)) (
                fetch-eq-drop rounds bytes (offset + k) len size hl hs (omega arith)
                ∙ sym (drop-drop offset k bytes))
              ∙ take-drop_append k rest))
    ]
