-- ===== src/Pass/Conflicts.antt =====
-- Whether two calls may match the same message, in conflict_detection.cpp.
pub mod Sound
use mpi_comp_match.Base.{ℕ, Bool, true, false, ◌||◌, ◌&&◌, not, ◌==◌, if◌then◌else◌}
use mpi_comp_match.Pass.Checked.{Checked, ◌>>=◌, ◌>>◌, assert, pure}
use mpi_comp_match.Pass.Llvm.{Llvm}
use mpi_comp_match.Pass.Functions.{MpiFunctions}
use mpi_comp_match.Pass.Arguments.{get_communicator, get_src, get_tag}

-- ImplementationSpecifics: the constants MPI_ANY_SOURCE and MPI_ANY_TAG
pub record Wildcards : Type 0 where
  pub any_source : ℕ
  pub any_tag : ℕ

module _ (ir : Llvm) where
  -- The scalar evolutions are compared where one of the values is an instruction.
  unfoldable pub can_prove_val_different_respecting_loops : ℕ → ℕ → Bool
  can_prove_val_different_respecting_loops a b =
      if ir.is_instruction a
      then ir.is_known_unequal a b
      else (if ir.is_instruction b then ir.is_known_unequal b a else false)

  -- `check_for_loop_iter_difference` is false in every call.
  unfoldable pub can_prove_val_different : ℕ → ℕ → Checked Bool
  can_prove_val_different a b = do
    assert (ir.same_type a b)
    pure (
        if ir.is_constant a && ir.is_constant b
        then not (a == b)
        else can_prove_val_different_respecting_loops a b)

  -- A wildcard matches any value.
  unfoldable pub can_prove_unmatched : (wildcard a b : ℕ) → Checked Bool
  can_prove_unmatched wildcard a b =
      if a == wildcard || b == wildcard then pure false else can_prove_val_different a b

module _ (ir : Llvm) (mpi : MpiFunctions) (wildcards : Wildcards) where
  unfoldable pub are_calls_conflicting :
      (orig_call conflict_call : ℕ) → (is_send : Bool) → Checked Bool
  are_calls_conflicting orig_call conflict_call is_send = do
    comm1 ← get_communicator ir mpi orig_call
    comm2 ← get_communicator ir mpi conflict_call
    other_comm ← can_prove_val_different ir comm1 comm2
    if other_comm then pure false else (do
      src1 ← get_src ir mpi orig_call is_send
      src2 ← get_src ir mpi conflict_call is_send
      other_src ← can_prove_unmatched ir wildcards.any_source src1 src2
      if other_src then pure false else (do
        tag1 ← get_tag ir mpi orig_call is_send
        tag2 ← get_tag ir mpi conflict_call is_send
        other_tag ← can_prove_unmatched ir wildcards.any_tag tag1 tag2
        pure (not other_tag)))
