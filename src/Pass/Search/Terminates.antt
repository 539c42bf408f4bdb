-- ===== src/Pass/Search/Terminates.antt =====
-- The search in a function that the program does not call, such as main.
use mpi_comp_match.Base.{
  ℕ, zero, suc, ◌+◌, ◌<◌, ◌≡◌, ◌≢◌, refl, ap, Bool, true, false, List, [], ◌∷◌, none, some, ◌&&◌,
  ◌==◌, ltb, All, ⊎_elim, Bool-cases, ==_iff, ==_self, arith,
}
use mpi_comp_match.Pass.Checked.{Checked, Ensured}
use mpi_comp_match.Pass.Llvm.{Llvm}
use mpi_comp_match.Pass.Functions.{MpiFunctions}
use mpi_comp_match.Pass.Conflicts.{Wildcards}
use mpi_comp_match.Pass.Search.Paths.{if_split}
use mpi_comp_match.Pass.Search.{
  contains, insert, Position, Answer, out_of_fuel, Verdict, go_on, ends, get_guarding_compare,
  blocks_behind, add_blocks, add_returns, add_exits, next_of, choose, advance, after_verdict,
  verdict, search_paths, check_call_for_conflict,
}
use mpi_comp_match.Pass.Search.Sets.{
  contains-insert, Sorted, Sorted-insert, unchecked, unchecked-insert,
}
use mpi_comp_match.Pass.Search.Region.{Region}

module _ (ir : Llvm) (mpi : MpiFunctions) (wildcards : Wildcards) (mpi_call first_ending : ℕ)
    (other_endings : List ℕ) (is_sending : Bool) where
  abbrev scope_endings : List ℕ
  scope_endings = first_ending ∷ other_endings

  abbrev guard_pair : ℕ × Bool
  guard_pair = get_guarding_compare ir mpi_call

  module _ (In : ℕ → Type 0) (length_from weight : ℕ → ℕ) (blocks : List ℕ)
      (region : Region ir mpi_call In length_from weight blocks) where
    -- An instruction to be checked, the first of a block that is not checked yet.
    record Waiting (checked : List ℕ) (i : ℕ) : Type 0 where
      inside : In i
      block : contains (ir.get_parent i) blocks ≡ true
      new : contains (ir.get_parent i) checked ≡ false
      first : i ≡ ir.get_first_non_phi (ir.get_parent i)
      short : length_from i < weight (ir.get_parent i)

    record Live (at : Position) : Type 0 where
      here : at.next_inst ≢ 0 → In at.next_inst
      waiting : All (Waiting at.already_checked) at.to_check
      sorted : Sorted at.to_check

    abbrev measure : Position → ℕ
    measure at = length_from at.next_inst + unchecked weight blocks at.already_checked

    All-insert :
        (checked : List ℕ) (x : ℕ) (l : List ℕ)
        → Waiting checked x
        → All (Waiting checked) l
        → All (Waiting checked) (insert x l)
    unfolding insert
    All-insert checked x [] h k = (h, tt)
    All-insert checked x (y ∷ rest) h (k, ks) =
        if_split (All (Waiting checked)) (x == y) (λ _. (k, ks))
          (λ _.
            if_split (All (Waiting checked)) (ltb x y) (λ _. (h, (k, ks)))
              (λ _. (k, All-insert checked x rest h ks)))

    abbrev Queue : List ℕ → List ℕ → Type 0
    Queue checked l = All (Waiting checked) l × Sorted l

    Queue-add_blocks :
        (i : ℕ) (checked bs to_check : List ℕ)
        → In i
        → ((b : ℕ) → contains b bs ≡ true → contains b (blocks_behind ir guard_pair i) ≡ true)
        → Queue checked to_check
        → Queue checked (add_blocks ir checked bs to_check)
    unfolding add_blocks
    Queue-add_blocks i checked [] to_check h k q = q
    Queue-add_blocks i checked (b ∷ rest) to_check h k q =
        Queue-add_blocks i checked rest _ h (λ c e. k c (ground (arith, e)))
          (if_split (Queue checked) (contains b checked) (λ _. q)
            (λ new.
              let f = region.follows i b h (k b (simp ==_self)) in
              let parent = f.1.1.0 in
              (
                All-insert checked _ to_check
                    (record {
                      inside = f.0;
                      block = rw parent f.1.0;
                      new = rw parent new;
                      first = rw parent refl;
                      short = rw parent f.1.1.1;
                    })
                    q.0,
                Sorted-insert _ to_check q.1,
              )))

    no_returns :
        (f : ℕ) (users l : List ℕ)
        → ((u : ℕ)
            → contains u users ≡ true
            → (ir.is_call u && ir.get_called_function u == f) ≡ false)
        → add_returns ir f users l ≡ some l
    unfolding add_returns
    no_returns f [] l h = refl
    no_returns f (u ∷ rest) l h =
        rw (h u (simp ==_self)) (no_returns f rest l (λ v e. h v (ground (arith, e))))

    no_exits : (i : ℕ) (l : List ℕ) → In i → add_exits ir i l ≡ some l
    unfolding add_exits
    no_exits i l h =
        if_split (λ c. c ≡ some l) (ir.is_terminator i && ir.is_return i)
          (λ e. no_returns _ _ l (λ u m. region.not_called i u h (ground (arith, e)) m)) (λ _. refl)

    -- Another instruction that waits begins another block.
    still-Waiting :
        (checked l : List ℕ) (i : ℕ)
        → Waiting checked i
        → All (λ j. i < j) l
        → All (Waiting checked) l
        → All (Waiting (insert (ir.get_parent i) checked)) l
    still-Waiting checked [] i h less k = tt
    still-Waiting checked (j ∷ rest) i h (less, others) (k, ks) = (
      record {
        inside = k.inside;
        block = k.block;
        new =
            let inserted = contains-insert (ir.get_parent j) (ir.get_parent i) checked in
            let begins_i = h.first in
            let begins_j = k.first in
            let is_new = k.new in
            ⊎_elim
              (λ same.
                let e =
                  ap ir.get_first_non_phi ((==_iff (ir.get_parent j) (ir.get_parent i)).0 same) in
                absurd (omega (arith, begins_i, begins_j, e, less)))
              (λ other. ground (arith, inserted, is_new, other))
              (Bool-cases (ir.get_parent j == ir.get_parent i));
        first = k.first;
        short = k.short;
      },
      still-Waiting checked rest i h others ks,
    )

    chosen-Live :
        (next i : ℕ) (l checked : List ℕ)
        → In i
        → (next ≢ 0 → In next)
        → (next ≢ 0 → length_from next < length_from i)
        → Queue checked l
        → Live (choose ir next l checked)
          × (measure (choose ir next l checked) < length_from i + unchecked weight blocks checked)
    unfolding choose
    chosen-Live zero i [] checked h onwards shorter q = (
      record { here = λ z. absurd (z refl); waiting = tt; sorted = tt },
      (let e = region.ended in let p = region.positive i h in omega arith),
    )
    chosen-Live zero i (j ∷ rest) checked h onwards shorter ((w, ws), (s, ss)) = (
      record { here = λ _. w.inside; waiting = still-Waiting checked rest j w s ws; sorted = ss },
      (let short = w.short in
          let less = unchecked-insert weight (ir.get_parent j) checked blocks w.block w.new in
          omega arith),
    )
    chosen-Live (suc n) i l checked h onwards shorter (w, s) = (
      record { here = onwards; waiting = w; sorted = s },
      (let less = shorter (λ e. omega (arith, e)) in omega arith),
    )

    advance-Live :
        (at : Position)
        → at.next_inst ≢ 0
        → Live at
        → Ensured (λ at'. Live at' × (measure at' < measure at)) (advance ir guard_pair at)
    unfolding advance
    advance-Live at present live =
        let inside = live.here present in
        rw
          (no_exits at.next_inst
            (add_blocks ir at.already_checked (blocks_behind ir guard_pair at.next_inst)
              at.to_check)
            inside)
          (chosen-Live (next_of ir at.next_inst) at.next_inst _ at.already_checked inside
            (region.onwards at.next_inst inside) (region.shorter at.next_inst inside)
            (Queue-add_blocks at.next_inst at.already_checked _ at.to_check inside (λ b e. e)
              (live.waiting, live.sorted)))

    verdict_answers :
        (i : ℕ)
        → verdict ir mpi wildcards mpi_call scope_endings is_sending i ≡ ends out_of_fuel
        → ⊥
    unfolding verdict
    verdict_answers i h = ground (arith, h)

    abbrev run : ℕ → Position → Answer
    run = search_paths ir mpi wildcards mpi_call scope_endings is_sending guard_pair

    goes_on :
        (fuel : ℕ) (at : Position) (v : Verdict) (c : Checked Position)
        → (v ≡ ends out_of_fuel → ⊥)
        → Ensured (λ at'. Live at' × (measure at' < measure at)) c
        → ((at' : Position) → Live at' → measure at' < measure at → run fuel at' ≢ out_of_fuel)
        → after_verdict v c (run fuel) ≢ out_of_fuel
    goes_on fuel at (ends answer) c h k rest = λ e. h (ap ends e)
    goes_on fuel at go_on none h k rest = λ e. ground (arith, e)
    goes_on fuel at go_on (some at') h (live, less) rest = rest at' live less

    run_answers :
        (fuel : ℕ) (at : Position) → Live at → measure at < fuel → run fuel at ≢ out_of_fuel
    unfolding search_paths
    run_answers zero at live enough = absurd (omega arith)
    run_answers (suc fuel) at live enough =
        if_split (λ a. a ≢ out_of_fuel) (at.next_inst == 0) (λ _ e. ground (arith, e))
          (λ other.
            goes_on fuel at _ _ (verdict_answers at.next_inst)
              (advance-Live at (λ z. ground (arith, other, z)) live)
              (λ at' live' less. run_answers fuel at' live' (omega (arith, less))))

    -- In a function that the program does not call, the search ends: with more fuel than the length of
    -- what is behind the call in its block and the sum of the blocks that can follow, it returns or an
    -- assertion fails.
    pub check_call_for_conflict-ends :
        (fuel : ℕ)
        → length_from (ir.get_next_node mpi_call) + unchecked weight blocks [] < fuel
        → check_call_for_conflict ir mpi wildcards mpi_call scope_endings is_sending fuel
          ≢ out_of_fuel
    unfolding check_call_for_conflict
    check_call_for_conflict-ends fuel enough =
        run_answers fuel _ (record { here = λ _. region.begins; waiting = tt; sorted = tt }) enough
