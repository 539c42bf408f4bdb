-- ===== src/Pass/Search/Answers.antt =====
-- The paths that the search follows, as a relation, and what its answers say of them.
use mpi_comp_match.Base.{
  ℕ, zero, suc, ◌≡◌, ◌≢◌, refl, subst, Bool, true, List, [], ◌∷◌, none, some, ◌||◌, ◌&&◌, ◌==◌,
  false, if◌then◌else◌, Bool-cases, ==_iff, sym, ◌∙◌, ⊎_elim, arith,
}
use mpi_comp_match.Pass.Checked.{Checked, Ensured}
use mpi_comp_match.Pass.Llvm.{Llvm}
use mpi_comp_match.Pass.Functions.{MpiFunctions, is_mpi_call, is_send_function, is_recv_function}
use mpi_comp_match.Pass.Metadata.{may_conflict, is_unknown}
use mpi_comp_match.Pass.Conflicts.{Wildcards, are_calls_conflicting}
use mpi_comp_match.Pass.Search.{
  contains, Position, Answer, returns, assertion_failed, out_of_fuel, Verdict, go_on, ends,
  get_guarding_compare, next_of, advance, after_verdict, verdict, verdict_mpi, verdict_other,
  if_conflicting, search_paths, check_call_for_conflict,
}
use mpi_comp_match.Pass.Search.Ways.{IsWay, blocks_behind-IsWay}
use mpi_comp_match.Pass.Search.Paths.{if_split, All-contained, Throughout, Throughout-advance}

after_verdict_rule :
    (Q : Answer → Type 0) (K : Position → Type 0) (v : Verdict) (c : Checked Position)
    (search : Position → Answer)
    → Q assertion_failed
    → ((answer : Answer) → v ≡ ends answer → Q answer)
    → (v ≡ go_on → Ensured K c)
    → ((at : Position) → K at → Q (search at))
    → Q (after_verdict v c search)
after_verdict_rule Q K (ends answer) c search f h k rest = h answer refl
after_verdict_rule Q K go_on none search f h k rest = f
after_verdict_rule Q K go_on (some at) search f h k rest = rest at (k refl)

module _ (ir : Llvm) (mpi : MpiFunctions) (wildcards : Wildcards) (mpi_call : ℕ)
    (scope_endings : List ℕ) (is_sending : Bool) where
  abbrev pub verdict_at : ℕ → Verdict
  verdict_at = verdict ir mpi wildcards mpi_call scope_endings is_sending

  -- A call of MPI that does not end the scope of the request or the communication.
  pub record GoesOnBehind (i : ℕ) : Type 0 where
    pub is_call : ir.is_call i ≡ true
    pub of_mpi : is_mpi_call ir i ≡ true
    pub not_last : (ir.get_called_function i == mpi.mpi_finalize) ≡ false
    pub in_scope : contains i scope_endings ≡ false

  -- A call of a function that is not of MPI.
  pub record CallsOther (i : ℕ) : Type 0 where
    pub is_call : ir.is_call i ≡ true
    pub not_mpi : is_mpi_call ir i ≡ false

  -- A call of a function that sends, where the search is for a send, or that receives.
  abbrev pub is_same_kind : Bool → ℕ → Bool
  is_same_kind true i = is_send_function mpi (ir.get_called_function i)
  is_same_kind false i = is_recv_function mpi (ir.get_called_function i)

  -- Why an instruction gives the answer of the search: true where there may be a conflict, false where
  -- there can be none behind it.
  pub data Gives (i : ℕ) : Bool → Type 0 where
    conflicts :
        GoesOnBehind i
        → is_same_kind is_sending i ≡ true
        → are_calls_conflicting ir mpi wildcards mpi_call i is_sending ≡ some true
        → Gives i true
    calls_conflict :
        CallsOther i → may_conflict ir mpi (ir.get_called_function i) ≡ true → Gives i true
    calls_unknown :
        CallsOther i → is_unknown ir mpi (ir.get_called_function i) ≡ true → Gives i true
    finalizes :
        ir.is_call i ≡ true
        → is_mpi_call ir i ≡ true
        → ir.get_called_function i ≡ mpi.mpi_finalize
        → Gives i false
    ends_scope :
        ir.is_call i ≡ true
        → is_mpi_call ir i ≡ true
        → contains i scope_endings ≡ true
        → Gives i false

  -- Why the search goes on behind an instruction.
  pub data Passes (i : ℕ) : Type 0 where
    is_no_call : ir.is_call i ≡ false → Passes i
    is_other_kind : GoesOnBehind i → is_same_kind is_sending i ≡ false → Passes i
    does_not_conflict :
        GoesOnBehind i
        → are_calls_conflicting ir mpi wildcards mpi_call i is_sending ≡ some false
        → Passes i
    is_harmless :
        CallsOther i
        → may_conflict ir mpi (ir.get_called_function i) ≡ false
        → is_unknown ir mpi (ir.get_called_function i) ≡ false
        → Passes i

  abbrev pub Explained : ℕ → Verdict → Type 0
  Explained i go_on = Passes i
  Explained i (ends (returns b)) = Gives i b
  Explained i (ends assertion_failed) = Unit
  Explained i (ends out_of_fuel) = Unit

  answer-Explained :
      (i : ℕ) (c : Checked Bool)
      → GoesOnBehind i
      → is_same_kind is_sending i ≡ true
      → are_calls_conflicting ir mpi wildcards mpi_call i is_sending ≡ c
      → Explained i (if_conflicting c)
  answer-Explained i none h k e = tt
  answer-Explained i (some true) h k e = conflicts h k e
  answer-Explained i (some false) h k e = does_not_conflict h e

  same_kind :
      (b : Bool) (i : ℕ)
      → (if b
          then is_send_function mpi (ir.get_called_function i)
          else is_recv_function mpi (ir.get_called_function i))
        ≡ is_same_kind b i
  same_kind true i = refl
  same_kind false i = refl

  mpi-Explained :
      (i : ℕ)
      → ir.is_call i ≡ true
      → is_mpi_call ir i ≡ true
      → Explained i (verdict_mpi ir mpi wildcards mpi_call scope_endings is_sending i)
  mpi-Explained i call of_mpi =
      if_split (Explained i)
        (ir.get_called_function i == mpi.mpi_finalize || contains i scope_endings)
        (λ e.
          ⊎_elim (λ last. finalizes call of_mpi ((==_iff _ _).0 last))
            (λ ending. ends_scope call of_mpi (ground (arith, e, ending)))
            (Bool-cases (ir.get_called_function i == mpi.mpi_finalize)))
        (λ e.
          let h : GoesOnBehind i = record {
            is_call = call;
            of_mpi = of_mpi;
            not_last = ground (arith, e);
            in_scope = ground (arith, e);
          } in
          if_split (Explained i) _
            (λ k. answer-Explained i _ h (sym (same_kind is_sending i) ∙ k) refl)
            (λ k. is_other_kind h (sym (same_kind is_sending i) ∙ k)))

  other-Explained :
      (i : ℕ)
      → ir.is_call i ≡ true
      → is_mpi_call ir i ≡ false
      → Explained i (verdict_other ir mpi wildcards mpi_call scope_endings is_sending i)
  other-Explained i call other =
      let h : CallsOther i = record { is_call = call; not_mpi = other } in
      let f = ir.get_called_function i in
      if_split (Explained i) (may_conflict ir mpi f || is_unknown ir mpi f)
        {x = ends (returns true)} {y = go_on}
        (λ e.
          ⊎_elim (calls_conflict h) (λ no. calls_unknown h (ground (arith, e, no)))
            (Bool-cases (may_conflict ir mpi (ir.get_called_function i))))
        (λ e. is_harmless h (ground (arith, e)) (ground (arith, e)))

  pub verdict-Explained : (i : ℕ) → Explained i (verdict_at i)
  unfolding verdict
  verdict-Explained i =
      if_split (Explained i) (ir.is_call i)
        (λ call.
          if_split (Explained i) (is_mpi_call ir i) (mpi-Explained i call) (other-Explained i call))
        is_no_call

  -- The instruction is on a path from the call on which the search goes on behind every other one. At
  -- a branch on the guard of the call the path takes the way of the call; behind a return it goes on
  -- behind any call of the function.
  pub data Follows : ℕ → Type 0 where
    first : ir.get_next_node mpi_call ≢ 0 → Follows (ir.get_next_node mpi_call)
    next : {i : ℕ} → Passes i → Follows i → next_of ir i ≢ 0 → Follows (next_of ir i)
    branch :
        {i : ℕ} (block : ℕ)
        → Passes i
        → Follows i
        → IsWay ir mpi_call i block
        → Follows (ir.get_first_non_phi block)
    exit :
        {i : ℕ} (user : ℕ)
        → Passes i
        → Follows i
        → ir.is_return i ≡ true
        → (ir.is_call user && ir.get_called_function user == ir.get_function i) ≡ true
        → contains user (ir.users (ir.get_function i)) ≡ true
        → Follows (ir.get_next_node user)

  -- Some instruction on a path gives this answer.
  abbrev pub FoundOnPath : Bool → Type 0
  FoundOnPath answer = (i : ℕ) × (Follows i × Gives i answer)

  abbrev pub Justified : Answer → Type 0
  Justified (returns answer) = FoundOnPath answer
  Justified assertion_failed = Unit
  Justified out_of_fuel = Unit

  abbrev guard_pair : ℕ × Bool
  guard_pair = get_guarding_compare ir mpi_call

  Follows-advance :
      (at : Position)
      → at.next_inst ≢ 0
      → Passes at.next_inst
      → Throughout ir Follows at
      → Ensured (Throughout ir Follows) (advance ir guard_pair at)
  Follows-advance at here verdict (h, k) =
      Throughout-advance ir Follows guard_pair at (next verdict (h here))
        (All-contained _ _
          (λ b e. branch b verdict (h here) (blocks_behind-IsWay ir mpi_call _ b e)))
        (λ r u e m. exit u verdict (h here) r e m) k

  pub gives : (i : ℕ) (b : Bool) → verdict_at i ≡ ends (returns b) → Gives i b
  gives i b v = subst (Explained i) v (verdict-Explained i)

  justified : (i : ℕ) (answer : Answer) → Follows i → verdict_at i ≡ ends answer → Justified answer
  justified i (returns answer) h v = (i, (h, gives i answer v))
  justified i assertion_failed h v = tt
  justified i out_of_fuel h v = tt

  search_paths-Justified :
      (fuel : ℕ) (at : Position)
      → Throughout ir Follows at
      → Justified
          (search_paths ir mpi wildcards mpi_call scope_endings is_sending guard_pair fuel at)
  unfolding search_paths
  search_paths-Justified zero at h = tt
  search_paths-Justified (suc fuel) at h =
      if_split Justified (at.next_inst == 0) (λ e. tt)
        (λ e.
          let here : at.next_inst ≢ 0 = λ z. ground (arith, e, z) in
          after_verdict_rule Justified (Throughout ir Follows) _ _ _ tt
            (λ answer v. justified at.next_inst answer (h.0 here) v)
            (λ v.
              Follows-advance at here
                (subst (Explained at.next_inst) v (verdict-Explained at.next_inst)) h)
            (search_paths-Justified fuel))

  check_call_for_conflict-Justified :
      (fuel : ℕ)
      → Justified (check_call_for_conflict ir mpi wildcards mpi_call scope_endings is_sending fuel)
  unfolding check_call_for_conflict
  check_call_for_conflict-Justified fuel = go scope_endings
    where
      start : Position
      start = record { next_inst = ir.get_next_node mpi_call; to_check = []; already_checked = [] }

      go :
          (l : List ℕ)
          → Justified (elim l [
            | [] ↦ assertion_failed
            | _ ∷ _ ↦
                search_paths ir mpi wildcards mpi_call scope_endings is_sending guard_pair fuel
                  start
          ])
      go [] = tt
      go (e ∷ rest) = search_paths-Justified fuel start (first, tt)

  -- Where the search returns, an instruction on a path from the call has given the answer. For true it
  -- is a call of MPI of the same kind that conflicts, or one of another function that may conflict or
  -- is unknown; for false it ends the scope of the request or is a call of MPI_Finalize. Every
  -- instruction before it on the path is none of these.
  pub check_call_for_conflict-FoundOnPath :
      (fuel : ℕ) (answer : Bool)
      → check_call_for_conflict ir mpi wildcards mpi_call scope_endings is_sending fuel
        ≡ returns answer
      → FoundOnPath answer
  check_call_for_conflict-FoundOnPath fuel answer e =
      subst Justified e (check_call_for_conflict-Justified fuel)
