-- ===== src/ActiveMessage/Ids/Reach.antt =====
-- The AM_IDs over any sequence of operations of the interface.
use mpi_comp_match.Base.{ℕ, List, [], ◌≡◌, refl}
use mpi_comp_match.Machine.Preserves.{Preserves}
use mpi_comp_match.Rendezvous.Request.{
  RequestType, uninitialized, recv_request_type_search_for_rdma_connection, Comm,
}
use mpi_comp_match.ActiveMessage.Library.{Library}
use mpi_comp_match.ActiveMessage.Machine.{M, State}
use mpi_comp_match.ActiveMessage.Ids.{Kept, Kept-Preorder}
use mpi_comp_match.Machine.{Ensures, done}
use mpi_comp_match.Base.{length, ◌+◌, ◌<◌}
use mpi_comp_match.ActiveMessage.Request.{uint_limit}
use mpi_comp_match.ActiveMessage.Connection.{await_am_id, exchange_as, send_rdma_info}
use mpi_comp_match.ActiveMessage.Operation.{mpiopt_start, mpiopt_wait}
use mpi_comp_match.ActiveMessage.Lifecycle.{
  add_request_to_list, init_request, mpiopt_recv_init_internal, mpiopt_send_init_internal,
  mpiopt_send_init, mpiopt_recv_init, remove_request_from_list, mpiopt_request_free_internal,
  mpiopt_request_free, clear_globals,
}
use mpi_comp_match.ActiveMessage.Ids.{registered, AllDistinct, Numbered}
use mpi_comp_match.ActiveMessage.Ids.Offer.{offer_am_id-Kept}
use mpi_comp_match.ActiveMessage.Ids.Transfers.{kept}
use mpi_comp_match.Base.{subst, Option, none, some}
use mpi_comp_match.Rendezvous.RequestList.{remove}
use mpi_comp_match.ActiveMessage.Ids.Operations.{mpiopt_start-Kept, mpiopt_wait-Kept}

module _ {World : Type 0} ⦃lib : Library World⦄ where
  abbrev Keeps : {A : Type 0} → M World A → Type 0
  Keeps = Preserves (Kept {World = World})

  -- The same AM_tag and the same calls.
  relisted-Kept : (s : State World) (l : List ℕ) → Kept s (record s { request_list = l })
  relisted-Kept s l = record {
    keep = λ h bound. record {
      counted = (h bound).counted;
      below = (h bound).below;
      distinct = (h bound).distinct;
    };
  }

  add_request_to_list-Kept : (p : ℕ) → Keeps (add_request_to_list p)
  unfolding add_request_to_list
  add_request_to_list-Kept p = record { at = λ s. relisted-Kept s _ }

  remove_request_from_list-Kept : (p : ℕ) → Keeps (remove_request_from_list p)
  unfolding remove_request_from_list
  remove_request_from_list-Kept p = record { at = λ s. go s (remove p s.request_list) refl }
    where
      go :
          (s : State World) (o : Option (List ℕ))
          → remove p s.request_list ≡ o
          → Ensures (remove_request_from_list p s) λ _ t. Kept s t
      go s none e = rw (Ensures, e) tt
      go s (some rest) e = rw (Ensures, e) (relisted-Kept s rest)

  exchange_as-Kept : (type : RequestType) (p : ℕ) → Keeps (exchange_as type p)
  unfolding exchange_as await_am_id
  exchange_as-Kept uninitialized p = search kept
  exchange_as-Kept recv_request_type_search_for_rdma_connection p = offer_am_id-Kept p
  exchange_as-Kept _ p = search kept

  send_rdma_info-Kept : (p : ℕ) → Keeps (send_rdma_info p)
  unfolding send_rdma_info
  send_rdma_info-Kept p = search (kept, exchange_as-Kept)

  init_request-Kept :
      (buf count datatype dest tag : ℕ) (comm : Comm) (p : ℕ)
      → Keeps (init_request buf count datatype dest tag comm p)
  unfolding init_request
  init_request-Kept buf count datatype dest tag comm p =
      search (kept, send_rdma_info-Kept, add_request_to_list-Kept) depth 40

  mpiopt_send_init-Kept :
      (buf count datatype dest tag : ℕ) (comm : Comm)
      → Keeps (mpiopt_send_init buf count datatype dest tag comm)
  unfolding mpiopt_send_init mpiopt_send_init_internal
  mpiopt_send_init-Kept buf count datatype dest tag comm = search (kept, init_request-Kept) depth 30

  mpiopt_recv_init-Kept :
      (buf count datatype source tag : ℕ) (comm : Comm)
      → Keeps (mpiopt_recv_init buf count datatype source tag comm)
  unfolding mpiopt_recv_init mpiopt_recv_init_internal
  mpiopt_recv_init-Kept buf count datatype source tag comm =
      search (kept, init_request-Kept) depth 30

  mpiopt_request_free-Kept : (p : ℕ) → Keeps (mpiopt_request_free p)
  unfolding mpiopt_request_free mpiopt_request_free_internal
  mpiopt_request_free-Kept p = search (kept, remove_request_from_list-Kept) depth 30

  -- An operation of the interface, up to where it returns.
  pub data Step (s s' : State World) : Type 0 where
    start : (p : ℕ) → mpiopt_start p s ≡ done tt s' → Step s s'
    wait : (fuel p status : ℕ) → mpiopt_wait fuel p status s ≡ done tt s' → Step s s'
    send_init :
        (buf count datatype dest tag : ℕ) (comm : Comm) (handle : ℕ)
        → mpiopt_send_init buf count datatype dest tag comm s ≡ done handle s'
        → Step s s'
    recv_init :
        (buf count datatype source tag : ℕ) (comm : Comm) (handle : ℕ)
        → mpiopt_recv_init buf count datatype source tag comm s ≡ done handle s'
        → Step s s'
    request_free : (p handle : ℕ) → mpiopt_request_free p s ≡ done handle s' → Step s s'

  -- What operations can reach from where MPIOPT_INIT has set the globals.
  pub data Reach : State World → Type 0 where
    init :
        (s : State World) {s' : State World}
        → registered s.log ≡ []
        → clear_globals s ≡ done tt s'
        → Reach s'
    next : {s s' : State World} → Reach s → Step s s' → Reach s'

  result-Kept :
      {A : Type 0} (m : M World A) (s s' : State World) (a : A)
      → Keeps m
      → m s ≡ done a s'
      → Kept s s'
  result-Kept m s s' a k e = subst (λ o. Ensures o λ _ t. Kept s t) e (k.at s)

  step-Kept : {s s' : State World} → Step s s' → Kept s s'
  step-Kept (start p e) = result-Kept _ _ _ _ (mpiopt_start-Kept p) e
  step-Kept (wait fuel p status e) = result-Kept _ _ _ _ (mpiopt_wait-Kept fuel p status) e
  step-Kept (send_init b c d e t m h q) = result-Kept _ _ _ _ (mpiopt_send_init-Kept b c d e t m) q
  step-Kept (recv_init b c d e t m h q) = result-Kept _ _ _ _ (mpiopt_recv_init-Kept b c d e t m) q
  step-Kept (request_free p h e) = result-Kept _ _ _ _ (mpiopt_request_free-Kept p) e

  cleared-Numbered :
      (s s' : State World) → registered s.log ≡ [] → clear_globals s ≡ done tt s' → Numbered s'
  unfolding clear_globals
  cleared-Numbered s s' e f =
      subst (λ o. Ensures o λ _ t. Numbered t) f
        λ bound. record { counted = rw e refl; below = rw e tt; distinct = rw e tt }

  Reach-Numbered : {s : State World} → Reach s → Numbered s
  Reach-Numbered (init s e f) = cleared-Numbered s _ e f
  Reach-Numbered (next r step) = (step-Kept step).keep (Reach-Numbered r)

  -- Whatever operations have been called, handlers are registered under distinct numbers, as long as
  -- their number, and one more, is an unsigned int, as the id of a handler is in UCX.
  pub Reach-AllDistinct :
      {s : State World}
      → Reach s
      → length (registered s.log) + 1 < uint_limit
      → AllDistinct (registered s.log)
  Reach-AllDistinct r bound = (Reach-Numbered r bound).distinct
