-- ===== src/Pass/Search/Sets.antt =====
-- The sets of the search: std::set by its order, and the blocks that are not checked yet.
use mpi_comp_match.Base.{
  ℕ, ◌+◌, ◌≤◌, ◌<◌, ◌≡◌, refl, ap, true, false, List, [], ◌∷◌, ◌||◌, ◌==◌, ltb, if◌then◌else◌, All,
  ⊎_elim, Bool-cases, ==_iff, arith,
}
use mpi_comp_match.Pass.Search.Paths.{if_split}
use mpi_comp_match.Pass.Search.{contains, insert}

pub contains-insert : (c x : ℕ) (l : List ℕ) → contains c (insert x l) ≡ (c == x || contains c l)
unfolding insert
contains-insert c x [] = refl
contains-insert c x (y ∷ rest) = grind (arith, contains-insert c x rest)

-- In the order of the addresses, each once.
abbrev pub Sorted : List ℕ → Type 0
Sorted [] = Unit
Sorted (x ∷ rest) = All (λ y. x < y) rest × Sorted rest

pub Above-insert :
    (r x : ℕ) (l : List ℕ) → r < x → All (λ y. r < y) l → All (λ y. r < y) (insert x l)
unfolding insert
Above-insert r x [] h k = (h, tt)
Above-insert r x (y ∷ rest) h (k, ks) =
    if_split (All (λ y. r < y)) (x == y) (λ _. (k, ks))
      (λ _.
        if_split (All (λ y. r < y)) (ltb x y) (λ _. (h, (k, ks)))
          (λ _. (k, Above-insert r x rest h ks)))

pub Above_larger : (r x : ℕ) (l : List ℕ) → r < x → All (λ y. x < y) l → All (λ y. r < y) l
Above_larger r x [] h k = tt
Above_larger r x (y ∷ rest) h (k, ks) = (omega arith, Above_larger r x rest h ks)

pub Sorted-insert : (x : ℕ) (l : List ℕ) → Sorted l → Sorted (insert x l)
unfolding insert
Sorted-insert x [] h = (tt, tt)
Sorted-insert x (y ∷ rest) (h, k) =
    if_split Sorted (x == y) (λ _. (h, k))
      (λ other.
        if_split Sorted (ltb x y)
          (λ less. ((ground (arith, less), Above_larger x y rest (ground (arith, less)) h), (h, k)))
          (λ more. (Above-insert y x rest (ground (arith, other, more)) h, Sorted-insert x rest k)))

-- The sum over the blocks that are not checked yet.
abbrev pub unchecked : (weight : ℕ → ℕ) → (blocks checked : List ℕ) → ℕ
unchecked weight [] checked = 0
unchecked weight (b ∷ rest) checked =
    (if contains b checked then 0 else weight b) + unchecked weight rest checked

module _ (weight : ℕ → ℕ) (b : ℕ) (checked : List ℕ) where
  unchecked_less :
      (blocks : List ℕ)
      → unchecked weight blocks (insert b checked) ≤ unchecked weight blocks checked
  unchecked_less [] = omega arith
  unchecked_less (x ∷ rest) =
      let later = unchecked_less rest in
      let inserted = contains-insert x b checked in ground (arith, later, inserted)

  pub unchecked-insert :
      (blocks : List ℕ)
      → contains b blocks ≡ true
      → contains b checked ≡ false
      → unchecked weight blocks (insert b checked) + weight b ≤ unchecked weight blocks checked
  unchecked-insert [] h new = absurd (ground (arith, h))
  unchecked-insert (x ∷ rest) h new =
      let inserted = contains-insert x b checked in
      let less = unchecked_less rest in
      ⊎_elim
        (λ same.
          let e = (==_iff b x).0 same in
          let as_new = ap (λ y. contains y checked) e in
          let as_heavy = ap weight e in
          let there : contains x (insert b checked) ≡ true = ground (arith, inserted, e) in
          ground (arith, there, less, new, as_new, as_heavy))
        (λ other.
          let later = unchecked-insert rest (ground (arith, h, other)) new in
          ground (arith, later, inserted, other))
        (Bool-cases (b == x))
