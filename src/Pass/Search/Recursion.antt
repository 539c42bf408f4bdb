-- ===== src/Pass/Search/Recursion.antt =====
-- The search in a function that calls itself, with a return right behind the call.
use mpi_comp_match.Base.{
  ℕ, zero, suc, ◌≤◌, ◌<◌, ◌≡◌, ◌≢◌, refl, Bool, true, false, List, [], ◌∷◌, none, some, ◌&&◌, not,
  ◌==◌, ltb, All, ⊎_elim, ap, sym, subst, ◌∙◌, Bool-cases, ==_iff, arith,
}
use mpi_comp_match.Pass.Checked.{Checked, ◌>>=◌, pure}
use mpi_comp_match.Pass.Llvm.{Llvm}
use mpi_comp_match.Pass.Functions.{MpiFunctions}
use mpi_comp_match.Pass.Conflicts.{Wildcards}
use mpi_comp_match.Pass.Search.Paths.{if_split}
use mpi_comp_match.Pass.Search.Sets.{Above-insert}
use mpi_comp_match.Pass.Search.{
  contains, insert, Position, Answer, out_of_fuel, go_on, get_guarding_compare, followed,
  blocks_behind, add_blocks, add_returns, add_exits, next_of, choose, advance, after_verdict,
  verdict, search_paths, check_call_for_conflict,
}

true-false : true ≡ false → ⊥
true-false e = ground (arith, e)

-- No assertion fails.
abbrev Succeeds : {A : Type 0} → (A → Type 0) → Checked A → Type 0
Succeeds Q none = ⊥
Succeeds Q (some a) = Q a

module _ (r : ℕ) where
  abbrev Above : List ℕ → Type 0
  Above = All (λ i. r < i)

  -- This instruction comes before all others.
  abbrev Headed : List ℕ → Type 0
  Headed [] = ⊥
  Headed (i ∷ rest) = (i ≡ r) × Above rest

  Headed-insert : (x : ℕ) (l : List ℕ) → r ≤ x → Headed l → Headed (insert x l)
  unfolding insert
  Headed-insert x [] h k = absurd k
  Headed-insert x (y ∷ rest) h (e, ks) =
      if_split Headed (x == y) (λ _. (e, ks))
        (λ other.
          if_split Headed (ltb x y) (λ less. absurd (ground (arith, less)))
            (λ _. (e, Above-insert r x rest (ground (arith, other)) ks)))

  insert-Headed : (l : List ℕ) → Above l → Headed (insert r l)
  unfolding insert
  insert-Headed [] h = (refl, tt)
  insert-Headed (y ∷ rest) (k, ks) =
      if_split Headed (r == y) (λ e. absurd (ground (arith, e)))
        (λ _. if_split Headed (ltb r y) (λ _. (refl, (k, ks))) (λ e. absurd (ground (arith, e))))

module _ (ir : Llvm) (f : ℕ) where
  -- A return of the function.
  pub record IsReturn (q : ℕ) : Type 0 where
    pub positive : 0 < q
    pub function : ir.get_function q ≡ f
    pub terminator : ir.is_terminator q ≡ true
    pub returns : ir.is_return q ≡ true
    pub not_call : ir.is_call q ≡ false
    pub not_branch : ir.is_branch q ≡ false
    pub last : ir.get_next_node q ≡ 0
    pub no_successors : ir.successors q ≡ []

module _ (ir : Llvm) (f r : ℕ) where
  abbrev calls : ℕ → Bool
  calls u = ir.is_call u && ir.get_called_function u == f

  module _ (positive : 0 < r) (later : (u : ℕ) → calls u ≡ true → r ≤ ir.get_next_node u) where
    present : (u : ℕ) → calls u ≡ true → not (ir.get_next_node u == 0) ≡ true
    present u e = let l = later u e in ground (arith, l)

    add_returns-Headed :
        (users l : List ℕ) → Headed r l → Succeeds (Headed r) (add_returns ir f users l)
    unfolding add_returns
    add_returns-Headed [] l h = h
    add_returns-Headed (u ∷ rest) l h =
        if_split (Succeeds (Headed r)) (calls u)
          (λ e.
            rw (present u e)
              (add_returns-Headed rest _ (Headed-insert r (ir.get_next_node u) l (later u e) h)))
          (λ e. add_returns-Headed rest l h)

    add_returns-Above :
        (c : ℕ) (users l : List ℕ)
        → calls c ≡ true
        → ir.get_next_node c ≡ r
        → contains c users ≡ true
        → Above r l
        → Succeeds (Headed r) (add_returns ir f users l)
    unfolding add_returns
    add_returns-Above c [] l e n m h = absurd (ground (arith, m))
    add_returns-Above c (u ∷ rest) l e n m h =
        let further : c ≢ u → contains c rest ≡ true = λ other. ground (arith, m, other) in
        if_split (Succeeds (Headed r)) (calls u)
          (λ d. rw (present u d) (
            ⊎_elim
              (λ same. add_returns-Headed rest _ (
                subst (λ x. Headed r (insert x l)) (sym ((==_iff _ _).0 same))
                  (insert-Headed r l h)))
              (λ other.
                let above : r < ir.get_next_node u =
                  (let k = later u d in ground (arith, other, k)) in
                add_returns-Above c rest _ e n
                  (further λ cu. ground (arith, ap ir.get_next_node cu, n, above))
                  (Above-insert r (ir.get_next_node u) l above h))
              (Bool-cases (ir.get_next_node u == r))))
          (λ d.
            add_returns-Above c rest l e n
              (further λ cu. absurd (true-false (sym e ∙ ap calls cu ∙ d))) h)

  -- The function calls itself and returns right behind this call, at r.
  pub record ReturnsToItself : Type 0 where
    pub return : IsReturn ir f r
    pub call : ℕ
    pub is_call : calls call ≡ true
    pub behind : ir.get_next_node call ≡ r
    pub used : contains call (ir.users f) ≡ true
    -- every other call is followed by an instruction at a higher address
    pub later : (u : ℕ) → calls u ≡ true → r ≤ ir.get_next_node u

  module _ (h : ReturnsToItself) (guard : ℕ × Bool) where
    exits-Headed :
        (q : ℕ) (checked l : List ℕ)
        → IsReturn ir f q
        → Above r l
        → Succeeds (Headed r) (add_exits ir q (add_blocks ir checked (blocks_behind ir guard q) l))
    unfolding add_exits add_blocks followed
    exits-Headed q checked l e k =
        simp (e.terminator, e.returns, e.function, e.not_branch, e.no_successors)
          (add_returns-Above h.return.positive h.later h.call (ir.users f) l h.is_call h.behind
            h.used k)

    chosen_again :
        (c : Checked (List ℕ)) (checked : List ℕ)
        → Succeeds (Headed r) c
        → Succeeds
            (λ at. (at.next_inst ≡ r) × Above r at.to_check)
            (c >>= λ l. pure (choose ir 0 l checked))
    unfolding choose
    chosen_again none checked k = k
    chosen_again (some []) checked k = absurd k
    chosen_again (some (i ∷ rest)) checked k = k

    again :
        (q : ℕ) (checked l : List ℕ)
        → IsReturn ir f q
        → Above r l
        → Succeeds
            (λ at. (at.next_inst ≡ r) × Above r at.to_check)
            (advance ir guard (record { next_inst = q; to_check = l; already_checked = checked }))
    unfolding advance next_of
    again q checked l e k = simp e.last (chosen_again _ checked (exits-Headed q checked l e k))

module _ (ir : Llvm) (mpi : MpiFunctions) (wildcards : Wildcards) (mpi_call first_ending : ℕ)
    (other_endings : List ℕ) (is_sending : Bool) (f r : ℕ) (h : ReturnsToItself ir f r) where
  abbrev scope_endings : List ℕ
  scope_endings = first_ending ∷ other_endings

  abbrev guard_pair : ℕ × Bool
  guard_pair = get_guarding_compare ir mpi_call

  abbrev run : ℕ → Position → Answer
  run = search_paths ir mpi wildcards mpi_call scope_endings is_sending guard_pair

  goes_on :
      (q : ℕ)
      → IsReturn ir f q
      → verdict ir mpi wildcards mpi_call scope_endings is_sending q ≡ go_on
  unfolding verdict
  goes_on q e = simp e.not_call

  onwards :
      (fuel : ℕ) (c : Checked Position)
      → Succeeds (λ at. (at.next_inst ≡ r) × Above r at.to_check) c
      → ((at : Position) → at.next_inst ≡ r → Above r at.to_check → run fuel at ≡ out_of_fuel)
      → after_verdict go_on c (run fuel) ≡ out_of_fuel
  onwards fuel none k rest = absurd k
  onwards fuel (some at) (e, k) rest = rest at e k

  -- From a return of the function the search comes to r.
  from_return :
      (fuel q : ℕ) (checked l : List ℕ)
      → IsReturn ir f q
      → Above r l
      → ((at : Position) → at.next_inst ≡ r → Above r at.to_check → run fuel at ≡ out_of_fuel)
      → run (suc fuel) (record { next_inst = q; to_check = l; already_checked = checked })
        ≡ out_of_fuel
  unfolding search_paths
  from_return fuel q checked l e k rest =
      let positive = e.positive in
      let nonzero : (q == 0) ≡ false = ground arith in
      simp (nonzero, goes_on q e) (onwards fuel _ (again ir f r h guard_pair q checked l e k) rest)

  forever :
      (fuel : ℕ) (at : Position)
      → at.next_inst ≡ r
      → Above r at.to_check
      → run fuel at ≡ out_of_fuel
  unfolding search_paths
  forever zero at e k = refl
  forever (suc fuel) at e k =
      subst
        (λ q.
          run (suc fuel)
            (record { next_inst = q; to_check = at.to_check; already_checked = at.already_checked })
          ≡ out_of_fuel)
        (sym e) (from_return fuel r at.already_checked at.to_check h.return k (forever fuel))

  started :
      (fuel q : ℕ)
      → IsReturn ir f q
      → run fuel (record { next_inst = q; to_check = []; already_checked = [] }) ≡ out_of_fuel
  unfolding search_paths
  started zero q e = refl
  started (suc fuel) q e = from_return fuel q [] [] e tt (forever fuel)

  -- Where a return stands right behind the creation, and the function of this return calls itself with
  -- another return right behind the call, the search never ends, with whatever fuel, provided that the
  -- other calls of the function are followed by higher addresses.
  pub check_call_for_conflict-diverges :
      (q : ℕ)
      → ir.get_next_node mpi_call ≡ q
      → IsReturn ir f q
      → (fuel : ℕ)
      → check_call_for_conflict ir mpi wildcards mpi_call scope_endings is_sending fuel
        ≡ out_of_fuel
  unfolding check_call_for_conflict
  check_call_for_conflict-diverges q behind e fuel = simp behind (started fuel q e)
