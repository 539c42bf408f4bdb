-- ===== src/Pass/Search/Persistent.antt =====
-- The search from MPI_Send_init and MPI_Recv_init, whose arguments are not read.
use mpi_comp_match.Base.{
  ℕ, suc, ◌≡◌, refl, Bool, true, false, List, [], ◌∷◌, ◌||◌, ◌==◌, if◌then◌else◌, arith,
}
use mpi_comp_match.Pass.Llvm.{Llvm}
use mpi_comp_match.Pass.Functions.{MpiFunctions, is_mpi_call, is_send_function, is_recv_function}
use mpi_comp_match.Pass.Conflicts.{Wildcards}
use mpi_comp_match.Pass.Conflicts.Sound.{readable, are_calls_conflicting-fails}
use mpi_comp_match.Pass.Search.{
  contains, returns, assertion_failed, ends, verdict, check_call_for_conflict, search_paths,
  get_guarding_compare,
}
use mpi_comp_match.Pass.Search.Answers.{verdict_at}

either : (b : Bool) → (if b then assertion_failed else assertion_failed) ≡ assertion_failed
either true = refl
either false = refl

module _ (ir : Llvm) (mpi : MpiFunctions) (wildcards : Wildcards) (mpi_call : ℕ)
    (scope_endings : List ℕ) (is_sending : Bool)
    (persistent : contains (ir.get_called_function mpi_call) (readable ir mpi wildcards)
      ≡ false) where
  abbrev same_direction : ℕ → Bool
  same_direction f = if is_sending then is_send_function mpi f else is_recv_function mpi f

  -- At a call of a function of MPI the answer is never true.
  mpi_call_never_conflicts :
      (i : ℕ)
      → verdict_at ir mpi wildcards mpi_call scope_endings is_sending i ≡ ends (returns true)
      → (ir.is_call i ≡ true) × (is_mpi_call ir i ≡ false)
  unfolding verdict
  mpi_call_never_conflicts i h =
      let fails = are_calls_conflicting-fails ir mpi wildcards mpi_call i is_sending persistent in
      (ground (arith, h), ground (arith, fails, h))

  -- A call that sends or receives as the request does ends the search in a failing assertion.
  verdict-fails :
      (i : ℕ)
      → ir.is_call i ≡ true
      → is_mpi_call ir i ≡ true
      → (ir.get_called_function i == mpi.mpi_finalize || contains i scope_endings) ≡ false
      → same_direction (ir.get_called_function i) ≡ true
      → verdict_at ir mpi wildcards mpi_call scope_endings is_sending i ≡ ends assertion_failed
  unfolding verdict
  verdict-fails i call mpi_call' no_ending direction = simp (
    call,
    mpi_call',
    no_ending,
    direction,
    are_calls_conflicting-fails ir mpi wildcards mpi_call i is_sending persistent,
  )

  -- Where the first instruction behind such a call is a call of MPI that sends or receives as the
  -- request does, and is no end of its scope, an assertion fails.
  check_call_for_conflict-fails :
      (fuel i : ℕ)
      → ir.get_next_node mpi_call ≡ i
      → ir.is_call i ≡ true
      → is_mpi_call ir i ≡ true
      → (ir.get_called_function i == mpi.mpi_finalize || contains i scope_endings) ≡ false
      → same_direction (ir.get_called_function i) ≡ true
      → check_call_for_conflict ir mpi wildcards mpi_call scope_endings is_sending (suc fuel)
        ≡ assertion_failed
  unfolding check_call_for_conflict search_paths
  check_call_for_conflict-fails fuel i behind call mpi_call' no_ending direction = go scope_endings
    where
      run :
          search_paths ir mpi wildcards mpi_call scope_endings is_sending
            (get_guarding_compare ir mpi_call)
            (suc fuel)
            (record { next_inst = ir.get_next_node mpi_call; to_check = []; already_checked = [] })
          ≡ assertion_failed
      run = simp (behind, verdict-fails i call mpi_call' no_ending direction) (either (i == 0))

      go :
          (l : List ℕ)
          → elim l [
            | [] ↦ assertion_failed
            | _ ∷ _ ↦
                search_paths ir mpi wildcards mpi_call scope_endings is_sending
                  (get_guarding_compare ir mpi_call)
                  (suc fuel)
                  (record {
                    next_inst = ir.get_next_node mpi_call;
                    to_check = [];
                    already_checked = [];
                  })
          ]
            ≡ assertion_failed
      go [] = refl
      go (e ∷ rest) = run
