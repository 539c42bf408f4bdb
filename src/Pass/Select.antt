-- ===== src/Pass/Select.antt =====
-- Which operations are replaced: check_mpi_send_conflicts and check_mpi_recv_conflicts of
-- conflict_detection.cpp, and runOnModule of mpi_compiler_assistance_matching_pass.cpp.
pub mod Origin
pub mod Named
use mpi_comp_match.Base.{
  ℕ, Bool, true, false, List, [], ◌∷◌, ◌++◌, none, some, ◌||◌, ◌&&◌, ◌==◌, if◌then◌else◌,
}
use mpi_comp_match.Pass.Checked.{Checked, ◌>>=◌, ◌>>◌, assert, pure}
use mpi_comp_match.Pass.Llvm.{Llvm}
use mpi_comp_match.Pass.Functions.{MpiFunctions}
use mpi_comp_match.Pass.Conflicts.{Wildcards}
use mpi_comp_match.Pass.Search.{Answer, returns, check_call_for_conflict}
use mpi_comp_match.Pass.Scopes.{Indexing, is_call_of, get_scope_endings}
use mpi_comp_match.Pass.Replacement.{replace_communication_calls, add_init, add_finalize}

module _ (ir : Llvm) (mpi : MpiFunctions) where
  -- The calls of a function, where the module declares it.
  unfoldable pub calls_among : (function : ℕ) → List ℕ → List ℕ
  calls_among function [] = []
  calls_among function (user ∷ rest) =
      if is_call_of ir function user
      then user ∷ calls_among function rest
      else calls_among function rest

  unfoldable pub init_calls : ℕ → List ℕ
  init_calls function = if function == 0 then [] else calls_among function (ir.users function)

pub record Changes : Type 0 where
  pub replaced : List (ℕ × ℕ)
  pub inits : List ℕ
  pub finalizes : List ℕ

-- An answer, unless an assertion has failed or the fuel has run out.
abbrev pub answered : Answer → Checked Bool
answered (returns b) = some b
answered _ = none

module _ (ir : Llvm) (indexing : Indexing) (mpi : MpiFunctions) (wildcards : Wildcards)
    (fuel : ℕ) where
  -- check_mpi_send_conflicts and check_mpi_recv_conflicts
  unfoldable pub check_mpi_conflicts : (is_sending : Bool) → ℕ → Checked Bool
  check_mpi_conflicts is_sending init_call = do
    scope_endings ← get_scope_endings ir indexing mpi init_call
    answered (check_call_for_conflict ir mpi wildcards init_call scope_endings is_sending fuel)

  -- std::remove_if
  unfoldable pub remove_conflicting : (is_sending : Bool) → List ℕ → Checked (List ℕ)
  remove_conflicting is_sending [] = pure []
  remove_conflicting is_sending (call ∷ rest) = do
    conflict ← check_mpi_conflicts is_sending call
    others ← remove_conflicting is_sending rest
    pure (if conflict then others else call ∷ others)

  abbrev replace_if_both : (send_init_list recv_init_list : List ℕ) → Checked (List (ℕ × ℕ))
  replace_if_both [] recvs = pure []
  replace_if_both (s ∷ sends) [] = pure []
  replace_if_both (s ∷ sends) (r ∷ recvs) =
      replace_communication_calls ir mpi (s ∷ sends) (r ∷ recvs)

  -- The calls that are replaced, and the places where calls of MPIOPT_INIT and MPIOPT_FINALIZE are
  -- added.
  unfoldable pub run_on_module : Checked Changes
  run_on_module = do
    sends ← remove_conflicting true (init_calls ir mpi mpi.mpi_send_init)
    recvs ← remove_conflicting false (init_calls ir mpi mpi.mpi_recv_init)
    replaced ← replace_if_both sends recvs
    inits ← add_init ir mpi
    finalizes ← add_finalize ir mpi
    pure (record { replaced = replaced; inits = inits; finalizes = finalizes })
