-- ===== src/ActiveMessage/Ids/Transfers.antt =====
-- The transfers of Transfer.antt register no handler.
use mpi_comp_match.Base.{refl, ℕ, zero, suc, List, [], ◌∷◌, refl}
use mpi_comp_match.Machine.Preserves.{
  Preserves, Preserves-bind, Preserves-when, Preserves-pure, Preserves-get, Preserves-assert,
  preserving,
}
use mpi_comp_match.Rendezvous.Request.{RequestType, uninitialized, recv_request_type}
use mpi_comp_match.ActiveMessage.Library.{Library}
use mpi_comp_match.ActiveMessage.Machine.{M}
use mpi_comp_match.ActiveMessage.Transfer.{
  b_send, b_recv, progress_recv_request, progress_as, progress_request, progress_list,
  progress_other_requests, wait_while_in_progress, wait_for_completion_blocking, complete_transfer,
  e_send, e_recv,
}
use mpi_comp_match.ActiveMessage.Ids.{Kept, Kept-Preorder, load-Kept, modify-Kept, call-Kept}

pub ruleset kept = (preserving, load-Kept, modify-Kept, call-Kept)

module _ {World : Type 0} ⦃lib : Library World⦄ where
  abbrev Keeps : {A : Type 0} → M World A → Type 0
  Keeps = Preserves (Kept {World = World})

  pub b_send-Kept : (p : ℕ) → Keeps (b_send p)
  unfolding b_send
  b_send-Kept p = search kept depth 30

  pub b_recv-Kept : (p : ℕ) → Keeps (b_recv p)
  unfolding b_recv
  b_recv-Kept p = search kept depth 30

  progress_recv_request-Kept : (p : ℕ) → Keeps (progress_recv_request p)
  unfolding progress_recv_request
  progress_recv_request-Kept p = search (kept, b_recv-Kept)

  progress_as-Kept : (type : RequestType) (p : ℕ) → Keeps (progress_as type p)
  unfolding progress_as
  progress_as-Kept uninitialized p = search kept
  progress_as-Kept recv_request_type p = progress_recv_request-Kept p
  progress_as-Kept _ p = search kept

  progress_request-Kept : (p : ℕ) → Keeps (progress_request p)
  unfolding progress_request
  progress_request-Kept p = search (kept, progress_as-Kept)

  progress_list-Kept : (current : ℕ) (l : List ℕ) → Keeps (progress_list current l)
  unfolding progress_list
  progress_list-Kept current [] = search kept
  progress_list-Kept current (q ∷ rest) =
      Preserves-bind _ _ (Preserves-when _ _ (progress_request-Kept q))
        (λ _. progress_list-Kept current rest)

  progress_other_requests-Kept : (current : ℕ) → Keeps (progress_other_requests current)
  unfolding progress_other_requests
  progress_other_requests-Kept current =
      Preserves-bind _ _ (Preserves-get _) (λ l. progress_list-Kept current l)

  wait_while_in_progress-Kept :
      (fuel handle current : ℕ) → Keeps (wait_while_in_progress fuel handle current)
  unfolding wait_while_in_progress
  wait_while_in_progress-Kept zero handle current = search kept
  wait_while_in_progress-Kept (suc fuel) handle current = Preserves-bind _ _ (search kept) (λ _.
      Preserves-bind _ _ (call-Kept _ refl) (λ reply.
        Preserves-bind _ _ (progress_other_requests-Kept current)
          (λ _. Preserves-when _ _ (wait_while_in_progress-Kept fuel handle current))))

  wait_for_completion_blocking-Kept :
      (fuel handle current : ℕ) → Keeps (wait_for_completion_blocking fuel handle current)
  unfolding wait_for_completion_blocking
  wait_for_completion_blocking-Kept fuel handle current =
      search (kept, wait_while_in_progress-Kept) depth 20

  complete_transfer-Kept : (fuel p : ℕ) → Keeps (complete_transfer fuel p)
  unfolding complete_transfer
  complete_transfer-Kept fuel p = search (kept, wait_for_completion_blocking-Kept) depth 20

  pub e_send-Kept : (fuel p : ℕ) → Keeps (e_send fuel p)
  unfolding e_send
  e_send-Kept fuel p = search (kept, complete_transfer-Kept) depth 20

  pub e_recv-Kept : (fuel p : ℕ) → Keeps (e_recv fuel p)
  unfolding e_recv
  e_recv-Kept fuel p = complete_transfer-Kept fuel p
