-- ===== src/Bus/Mmio/Build.antt =====
-- The registers that `try_build_from` sets up answer stores at their offsets.
use mathlib.Core.Path.{subst}
use pokedex.Prelude.{
  ◌∙◌, All, ◌+◌, length-append, ℕ, zero, suc, ◌≤◌, ◌<◌, ◌≡◌, ◌⊎◌, inl, inr, refl, ap, Option, none,
  some, Option-cases, List, [], ◌∷◌, ◌++◌, map, String, str_eq, leb, ==_refl, Bool-cases, arith,
  length, get_or, ok, >>=-eq-ok, from_le_bytes, bit_or, ◌^◌, set,
}
use pokedex.Bus.Mmio.{
  Cells, MmioRegs, MmioAddrDecoder, Built, exit, offsets, reg_at, store, build_regs, insert_by_key,
  sort_by_key, try_build_from, do_bus_write, search_key, narrow,
}
use pokedex.Bus.Mmio.Search.{Ascends, search_key-some, search_key-ne-none}

abbrev Above : ℕ → List ℕ → Type 0
Above k [] = Unit {0}
Above k (x ∷ xs) = (k ≤ x) × Above k xs

abbrev Sorted : List ℕ → Type 0
Sorted [] = Unit {0}
Sorted (k ∷ ks) = Above k ks × Sorted ks

abbrev pub Occurs : ℕ → List ℕ → Type 0
Occurs k [] = ⊥
Occurs k (x ∷ xs) = (x ≡ k) ⊎ Occurs k xs

Above-trans : (k l : ℕ) (ks : List ℕ) → k ≤ l → Above l ks → Above k ks
Above-trans k l [] h a = tt
Above-trans k l (x ∷ xs) h (le, a) = (omega arith, Above-trans k l xs h a)

Above-get_or : (k : ℕ) (ks : List ℕ) (j : ℕ) → Above k ks → j < length ks → k ≤ get_or ks j 0
Above-get_or k [] j a lt = absurd (omega arith)
Above-get_or k (x ∷ xs) zero (le, a) lt = le
Above-get_or k (x ∷ xs) (suc j) (le, a) lt = Above-get_or k xs j a (omega arith)

Sorted-Ascends : (ks : List ℕ) → Sorted ks → Ascends ks
Sorted-Ascends [] s i j le lt = absurd (omega arith)
Sorted-Ascends (x ∷ xs) (a, s) zero zero le lt = omega arith
Sorted-Ascends (x ∷ xs) (a, s) zero (suc j) le lt = Above-get_or x xs j a (omega arith)
Sorted-Ascends (x ∷ xs) (a, s) (suc i) zero le lt = absurd (omega arith)
Sorted-Ascends (x ∷ xs) (a, s) (suc i) (suc j) le lt =
    Sorted-Ascends xs s i j (omega arith) (omega arith)

Occurs-index : (k : ℕ) (ks : List ℕ) → Occurs k ks → (j : ℕ) × (j < length ks) × (get_or ks j 0 ≡ k)
Occurs-index k [] o = absurd o
Occurs-index k (x ∷ xs) (inl e) = (0, omega arith, e)
Occurs-index k (x ∷ xs) (inr o) = let (j, lt, e) = Occurs-index k xs o in (suc j, omega arith, e)

module _ (r : ℕ × MmioRegs) where
  insert_by_key-Above :
      (k : ℕ) (rs : List (ℕ × MmioRegs))
      → k ≤ r.0
      → Above k (offsets rs)
      → Above k (offsets (insert_by_key r rs))
  unfolding insert_by_key
  insert_by_key-Above k [] le a = (le, tt)
  insert_by_key-Above k (s ∷ rs) le (les, a) = elim (Bool-cases (leb r.0 s.0)) [
    | inl below ↦ rw below (le, (les, a))
    | inr above ↦ rw above (les, insert_by_key-Above k rs le a)
  ]

  insert_by_key-Sorted :
      (rs : List (ℕ × MmioRegs)) → Sorted (offsets rs) → Sorted (offsets (insert_by_key r rs))
  unfolding insert_by_key
  insert_by_key-Sorted [] s = (tt, tt)
  insert_by_key-Sorted (t ∷ rs) (a, s) = elim (Bool-cases (leb r.0 t.0)) [
    | inl below ↦
        let le : r.0 ≤ t.0 = ground arith in
        rw below ((le, Above-trans r.0 t.0 (offsets rs) le a), (a, s))
    | inr above ↦ rw above (insert_by_key-Above t.0 rs (ground arith) a, insert_by_key-Sorted rs s)
  ]

  insert_by_key-Occurs :
      (k : ℕ) (rs : List (ℕ × MmioRegs))
      → Occurs k (offsets (r ∷ rs))
      → Occurs k (offsets (insert_by_key r rs))
  unfolding insert_by_key
  insert_by_key-Occurs k [] o = o
  insert_by_key-Occurs k (t ∷ rs) o = elim (Bool-cases (leb r.0 t.0)) [
    | inl below ↦ rw below o
    | inr above ↦ rw above (elim o [
      | inl e ↦ inr (insert_by_key-Occurs k rs (inl e))
      | inr (inl e) ↦ inl e
      | inr (inr later) ↦ inr (insert_by_key-Occurs k rs (inr later))
    ])
  ]

sort_by_key-Sorted : (rs : List (ℕ × MmioRegs)) → Sorted (offsets (sort_by_key rs))
unfolding sort_by_key
sort_by_key-Sorted [] = tt
sort_by_key-Sorted (r ∷ rs) = insert_by_key-Sorted r (sort_by_key rs) (sort_by_key-Sorted rs)

sort_by_key-Occurs :
    (k : ℕ) (rs : List (ℕ × MmioRegs)) → Occurs k (offsets rs) → Occurs k (offsets (sort_by_key rs))
unfolding sort_by_key
sort_by_key-Occurs k [] o = absurd o
sort_by_key-Occurs k (r ∷ rs) (inl e) = insert_by_key-Occurs r k (sort_by_key rs) (inl e)
sort_by_key-Occurs k (r ∷ rs) (inr o) =
    insert_by_key-Occurs r k (sort_by_key rs) (inr (sort_by_key-Occurs k rs o))

append-Occurs-left : (k : ℕ) (xs ys : List ℕ) → Occurs k xs → Occurs k (xs ++ ys)
append-Occurs-left k [] ys o = absurd o
append-Occurs-left k (x ∷ xs) ys (inl e) = inl e
append-Occurs-left k (x ∷ xs) ys (inr o) = inr (append-Occurs-left k xs ys o)

append-Occurs_last : (k : ℕ) (xs : List ℕ) → Occurs k (xs ++ k ∷ [])
append-Occurs_last k [] = inl refl
append-Occurs_last k (x ∷ xs) = inr (append-Occurs_last k xs)

offsets-append : (rs ss : List (ℕ × MmioRegs)) → offsets (rs ++ ss) ≡ offsets rs ++ offsets ss
offsets-append [] ss = refl
offsets-append (r ∷ rs) ss = ap (◌∷◌ r.0) (offsets-append rs ss)

-- Each register of the loop's start, and each entry of the configuration, is there at its end.
build_regs-Occurs :
    (config : List (String × ℕ)) (cells : Cells) (regs : List (ℕ × MmioRegs)) (e : Option ℕ)
    {out : Built}
    → build_regs config (cells, regs, e) ≡ ok out
    → (k : ℕ) → Occurs k (offsets regs) ⊎ Occurs k (map (λ r. r.1) config)
    → Occurs k (offsets out.1)
unfolding build_regs
build_regs-Occurs [] cells regs e {out} h k (inl o) =
    let is_regs : out.1 ≡ regs = ground arith in rw is_regs o
build_regs-Occurs [] cells regs e {out} h k (inr o) = absurd o
build_regs-Occurs ((name, offset) ∷ config) cells regs e h k o =
    elim (Bool-cases (str_eq name "exit")) [
      | inl named ↦
          let s = length cells in
          let regs' = regs ++ (offset, exit (record { cell = s })) ∷ [] in
          build_regs-Occurs config (cells ++ 0 ∷ []) regs' (some s) (rw named at h) k (elim o [
            | inl before ↦
                inl (rw offsets-append (append-Occurs-left k (offsets regs) (offset ∷ []) before))
            | inr (inl this) ↦
                inl (rw offsets-append (rw this (append-Occurs_last k (offsets regs))))
            | inr (inr later) ↦ inr later
          ])
      | inr other ↦ absurd (ground arith)
    ]

All-snoc :
    (P : ℕ × MmioRegs → Type 0) (rs : List (ℕ × MmioRegs)) (r : ℕ × MmioRegs)
    → All P rs
    → P r
    → All P (rs ++ r ∷ [])
All-snoc P [] r h k = (k, tt)
All-snoc P (s ∷ rs) r (h, hs) k = (h, All-snoc P rs r hs k)

-- Where each register of the loop's start has a property, and the register of each entry with the next
-- free cell has it too, each register at its end has it.
build_regs-All :
    (P : ℕ × MmioRegs → Type 0) (config : List (String × ℕ)) (cells : Cells)
    (regs : List (ℕ × MmioRegs)) (e : Option ℕ) {out : Built}
    → build_regs config (cells, regs, e) ≡ ok out
    → All P regs
    → ((j : ℕ)
        → j < length config
        → P (get_or (map (λ r. r.1) config) j 0, exit (record { cell = length cells + j })))
    → All P out.1
unfolding build_regs
build_regs-All P [] cells regs e {out} h all_regs entries =
    let is_regs : out.1 ≡ regs = ground arith in rw is_regs all_regs
build_regs-All P ((name, offset) ∷ config) cells regs e h all_regs entries =
    elim (Bool-cases (str_eq name "exit")) [
      | inl named ↦
          build_regs-All P config (cells ++ 0 ∷ [])
            (regs ++ (offset, exit (record { cell = length cells })) ∷ []) (some (length cells))
            (rw named at h)
            (All-snoc P regs _ all_regs (
              subst (λ k. P (offset, exit (record { cell = k }))) {x = length cells + 0}
                {y = length cells} (omega arith) (entries 0 (omega arith))))
            (λ j lt.
              subst (λ k. P (get_or (map (λ r. r.1) config) j 0, exit (record { cell = k })))
                {x = length cells + suc j} {y = length (cells ++ 0 ∷ []) + j}
                (omega (arith, length-append cells (0 ∷ []))) (entries (suc j) (omega arith)))
      | inr other ↦ absurd (ground arith)
    ]

build_regs-cells :
    (config : List (String × ℕ)) (cells : Cells) (regs : List (ℕ × MmioRegs)) (e : Option ℕ)
    {out : Built}
    → build_regs config (cells, regs, e) ≡ ok out
    → length out.0 ≡ length cells + length config
unfolding build_regs
build_regs-cells [] cells regs e {out} h =
    let same : out.0 ≡ cells = ground arith in rw same (omega arith)
build_regs-cells ((name, offset) ∷ config) cells regs e h = elim (Bool-cases (str_eq name "exit")) [
  | inl named ↦ omega (
    arith,
    build_regs-cells config (cells ++ 0 ∷ [])
        (regs ++ (offset, exit (record { cell = length cells })) ∷ []) (some (length cells))
        (rw named at h),
    length-append cells (0 ∷ []),
  )
  | inr other ↦ absurd (ground arith)
]

insert_by_key-All :
    (P : ℕ × MmioRegs → Type 0) (r : ℕ × MmioRegs) (rs : List (ℕ × MmioRegs))
    → P r
    → All P rs
    → All P (insert_by_key r rs)
unfolding insert_by_key
insert_by_key-All P r [] h hs = (h, tt)
insert_by_key-All P r (s ∷ rs) h (k, hs) = elim (Bool-cases (leb r.0 s.0)) [
  | inl below ↦ rw below (h, (k, hs))
  | inr above ↦ rw above (k, insert_by_key-All P r rs h hs)
]

sort_by_key-All :
    (P : ℕ × MmioRegs → Type 0) (rs : List (ℕ × MmioRegs)) → All P rs → All P (sort_by_key rs)
unfolding sort_by_key
sort_by_key-All P [] h = tt
sort_by_key-All P (r ∷ rs) (h, hs) =
    insert_by_key-All P r (sort_by_key rs) h (sort_by_key-All P rs hs)

-- The register is that of the entry with its number behind the first free cell.
abbrev OfEntry : List (String × ℕ) → ℕ → ℕ × MmioRegs → Type 0
OfEntry config base (offset, r) =
    (j : ℕ) × (j < length config)
    × (get_or (map (λ c. c.1) config) j 0 ≡ offset)
    × (r ≡ exit (record { cell = base + j }))

reg_at-OfEntry :
    (config : List (String × ℕ)) (base : ℕ) (regs : List (ℕ × MmioRegs)) (i : ℕ)
    → All (OfEntry config base) regs
    → i < length (offsets regs)
    → (j : ℕ) × (j < length config)
      × (get_or (map (λ c. c.1) config) j 0 ≡ get_or (offsets regs) i 0)
      × (reg_at regs i ≡ ok (exit (record { cell = base + j })))
reg_at-OfEntry config base [] i h lt = absurd (omega arith)
reg_at-OfEntry config base ((o, r) ∷ regs) zero ((j, below, at_j, is_exit), _) lt =
    (j, below, at_j, rw is_exit refl)
reg_at-OfEntry config base (r ∷ regs) (suc i) (_, hs) lt =
    reg_at-OfEntry config base regs i hs (omega arith)

do_bus_write-hit :
    (d : MmioAddrDecoder) (heap : Cells) (offset : ℕ) (bytes : List ℕ) (i c : ℕ)
    → length bytes ≡ 4
    → search_key (offsets d.regs) offset ≡ some i
    → reg_at d.regs i ≡ ok (exit (record { cell = c }))
    → do_bus_write d heap offset bytes ≡ ok (set heap c (bit_or (2 ^ 32) (from_le_bytes bytes)))
unfolding do_bus_write store
do_bus_write-hit d heap offset bytes i c four at_i is_exit = rw (four, at_i, is_exit) refl

-- If `try_build_from` succeeds, a write of four bytes at an offset of the configuration succeeds and
-- changes the cell of an entry with that offset and no other: the fresh one that has as many fresh
-- cells before it as there are entries before that entry. It sets the exit bit and the word.
pub do_bus_write-try_build_from :
    (config : List (String × ℕ)) (cells : Cells) {d : MmioAddrDecoder} {s : ℕ} {cells' : Cells}
    → try_build_from config cells ≡ ok (d, s, cells')
    → (offset : ℕ) → Occurs offset (map (λ r. r.1) config)
    → (heap : Cells) (bytes : List ℕ) → length heap ≡ length cells'
    → length bytes ≡ 4
    → (j : ℕ) × (j < length config)
      × (get_or (map (λ r. r.1) config) j 0 ≡ offset)
      × (length cells + j < length heap)
      × (do_bus_write d heap offset bytes
          ≡ ok (set heap (length cells + j) (bit_or (2 ^ 32) (from_le_bytes bytes))))
unfolding try_build_from
do_bus_write-try_build_from config cells {d} {s} {cells'} h offset o heap bytes sized four =
    let (built, e1, rest) = >>=-eq-ok (build_regs config (cells, [], none)) _ h in
    let is_regs : d.regs ≡ sort_by_key built.1 = ground arith in
    let is_cells : cells' ≡ built.0 = ground arith in
    let heap_size : length heap ≡ length built.0 = rw (← is_cells) sized in
    let fresh = build_regs-cells config cells [] none e1 in
    let keys = offsets (sort_by_key built.1) in
    let there = build_regs-Occurs config cells [] none e1 offset (inr o) in
    let (j, lt, hit) = Occurs-index offset keys (sort_by_key-Occurs offset built.1 there) in
    let entries = sort_by_key-All (OfEntry config (length cells)) built.1 (
      build_regs-All (OfEntry config (length cells)) config cells [] none e1 tt
        λ k below. (k, below, refl, refl)) in
    let found =
      search_key-ne-none keys offset j (Sorted-Ascends keys (sort_by_key-Sorted built.1)) lt hit in
    elim (Option-cases (search_key keys offset)) [
      | inl missing ↦ absurd (found missing)
      | inr (i, at_i) ↦
          let (in_range, at_offset) = search_key-some keys offset at_i in
          let (k, below, at_k, is_exit) =
            reg_at-OfEntry config (length cells) (sort_by_key built.1) i entries in_range in
          (
            k,
            below,
            at_k ∙ at_offset,
            omega arith,
            do_bus_write-hit d heap offset bytes i (length cells + k) four (rw is_regs at_i)
                (rw is_regs is_exit),
          )
    ]

search_key_single : (k : ℕ) → search_key (k ∷ []) k ≡ some 0
unfolding search_key narrow
search_key_single k = rw ==_refl refl

-- If `try_build_from` succeeds on one entry, a write of four bytes at its offset goes to the cell
-- that the bus is given, which is a fresh one.
pub try_build_from-single :
    (name : String) (offset : ℕ) (cells : Cells) {d : MmioAddrDecoder} {s : ℕ} {cells' : Cells}
    → try_build_from ((name, offset) ∷ []) cells ≡ ok (d, s, cells')
    → (s ≡ length cells)
      × (cells' ≡ cells ++ 0 ∷ [])
      × ((heap : Cells) (bytes : List ℕ)
          → length bytes ≡ 4
          → do_bus_write d heap offset bytes
            ≡ ok (set heap s (bit_or (2 ^ 32) (from_le_bytes bytes))))
unfolding try_build_from build_regs sort_by_key insert_by_key
try_build_from-single name offset cells {d} {s} {cells'} h =
    elim (Bool-cases (str_eq name "exit")) [
      | inl named ↦
          let built = rw named at h in
          let is_d : d ≡ record { regs = (offset, exit (record { cell = length cells })) ∷ [] } =
            cc in
          let is_s : s ≡ length cells = cc in
          let is_cells : cells' ≡ cells ++ 0 ∷ [] = cc in
          (
            is_s,
            is_cells,
            λ heap bytes four.
                rw (is_d, is_s)
                  (do_bus_write-hit
                    (record { regs = (offset, exit (record { cell = length cells })) ∷ [] }) heap
                    offset bytes 0 (length cells) four (search_key_single offset) refl),
          )
      | inr other ↦ let wrong = rw other at h in cc
    ]
