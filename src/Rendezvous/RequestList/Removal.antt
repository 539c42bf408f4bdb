-- ===== src/Rendezvous/RequestList/Removal.antt =====
-- `remove_request_from_list` takes the first occurrence out, and nothing else.
use mpi_comp_match.Base.{
  ℕ, ◌≡◌, ◌≢◌, refl, ap, List, [], ◌∷◌, ◌++◌, Option, none, some, ◌==◌, inl, inr, Bool-cases,
  ==_iff, arith, All, Option-cases,
}
use mpi_comp_match.Rendezvous.Machine.{State, Outcome, done, fault, assertion_failed}
use mpi_comp_match.Rendezvous.RequestList.{remove, remove_request_from_list}

-- What `remove p l` is to be: the list split at the first `p`, or a failure where there is none.
abbrev pub Removes : ℕ → List ℕ → Option (List ℕ) → Type 0
Removes p l none = All (λ q. q ≢ p) l
Removes p l (some l') =
    (before : List ℕ) × (after : List ℕ) × (l ≡ before ++ (p ∷ after))
    × (l' ≡ before ++ after)
    × All (λ q. q ≢ p) before

remove-cons :
    (p q : ℕ) (rest : List ℕ) (o : Option (List ℕ))
    → q ≢ p
    → Removes p rest o
    → Removes p (q ∷ rest) (elim o [ none ↦ none | some l ↦ some (q ∷ l) ])
remove-cons p q rest none ne h = (ne, h)
remove-cons p q rest (some l) ne (before, after, e, e', h) =
    (q ∷ before, after, ap (◌∷◌ q) e, ap (◌∷◌ q) e', (ne, h))

pub remove-Removes : (p : ℕ) (l : List ℕ) → Removes p l (remove p l)
unfolding remove
remove-Removes p [] = tt
remove-Removes p (q ∷ rest) = elim (Bool-cases (q == p)) [
  | inl e ↦ rw e ([], rest, ap (λ (n : ℕ). n ∷ rest) ((==_iff q p).0 e), refl, tt)
  | inr e ↦ rw e (remove-cons p q rest (remove p rest) (λ h. ground arith) (remove-Removes p rest))
]

module _ {World : Type 0} where
  abbrev pub After : ℕ → State World → Outcome (State World) (Unit {0}) → Type 0
  After p s (done _ s') = Removes p s.request_list (some s'.request_list)
  After p s (fault e) = (e ≡ assertion_failed) × All (λ q. q ≢ p) s.request_list

  -- `remove_request_from_list` returns exactly where the request is in the list, and then takes its
  -- first occurrence out and keeps the order of the others; else its assertion fails.
  pub remove_request_from_list-Removes :
      (p : ℕ) (s : State World) → After p s (remove_request_from_list p s)
  unfolding remove_request_from_list
  remove_request_from_list-Removes p s = elim (Option-cases (remove p s.request_list)) [
    | inl e ↦
        rw (e, remove_request_from_list)
          (
            refl,
            (let h : Removes p s.request_list none = rw e at (remove-Removes p s.request_list) in
                h),
          )
    | inr (l, e) ↦
        rw (e, remove_request_from_list)
          (let h : Removes p s.request_list (some l) = rw e at (remove-Removes p s.request_list) in
            h)
  ]
