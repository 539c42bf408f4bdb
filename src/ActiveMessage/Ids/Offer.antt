-- ===== src/ActiveMessage/Ids/Offer.antt =====
-- The exchange of an AM_ID registers the next number.
use mpi_comp_match.Base.{ℕ, ◌+◌, ◌%◌, ◌<◌, ◌≡◌, ◌≢◌, ◌==◌, List, [], ◌∷◌, some, All, arith}
use mpi_comp_match.Machine.{Ensures, Outcome, ◌>>=◌, ◌>>◌, update, assert, basic_actions}
use mpi_comp_match.Machine.Preserves.{Preserves, Preserves-bind, preserving, Ensures-map}
use mpi_comp_match.Rendezvous.Request.{handshake_communicator}
use mpi_comp_match.Rendezvous.Library.{ucs_ok}
use mpi_comp_match.ActiveMessage.Request.{ulong_limit, uint_limit}
use mpi_comp_match.ActiveMessage.Library.{
  Library, Call, Reply, am_id_value, mpi_issend, ucp_worker_progress,
  ucp_worker_set_am_recv_handler,
}
use mpi_comp_match.ActiveMessage.Machine.{M, State, load, modify, call_, run_handlers, call}
use mpi_comp_match.ActiveMessage.Machine.Run.{run, issued}
use mpi_comp_match.ActiveMessage.Connection.{offer_am_id, take_am_tag}
use mpi_comp_match.ActiveMessage.Ids.{
  registered, Distinct, Numbered, Kept, Kept-Preorder, load-Kept, modify-Kept, run_handlers-Kept,
  call-Kept,
}

below_larger : (n m : ℕ) (l : List ℕ) → n < m → All (λ id. id < n) l → All (λ id. id < m) l
below_larger n m [] e h = tt
below_larger n m (x ∷ xs) e (h, k) = (omega arith, below_larger n m xs e k)

distinct_next : (n : ℕ) (l : List ℕ) → All (λ id. id < n) l → All (λ id. id ≢ n) l
distinct_next n [] h = tt
distinct_next n (x ∷ xs) (h, k) = (λ e. omega arith, distinct_next n xs k)

incremented : (n : ℕ) → n + 1 < uint_limit → (n + 1) % ulong_limit ≡ n + 1
incremented n h = omega arith

unchanged : (n : ℕ) → n + 1 < uint_limit → n % uint_limit ≡ n
unchanged n h = omega arith

module _ {World : Type 0} ⦃lib : Library World⦄ where
  -- What follows on the registration of the handler.
  abbrev announce : ℕ → Reply → M World (Unit {0})
  announce p status = do
    assert (status.value == ucs_ok)
    call_ ucp_worker_progress
    r ← load p
    reply ← call (mpi_issend (am_id_value r.am_id) r.dest r.tag handshake_communicator)
    modify p (λ r. record r { rdma_exchange_request = reply.handle })

  announce-Kept : (p : ℕ) (status : Reply) → Preserves Kept (announce p status)
  announce-Kept p status = search (preserving, load-Kept, modify-Kept, call-Kept) depth 40

  abbrev numbered : ℕ → State World → State World
  numbered p s = record s {
    heap =
        update (update s.heap p (λ r. record r { am_id = s.am_tag })) p
          λ r. record r { am_handler_id = s.am_tag % uint_limit };
    am_tag = (s.am_tag + 1) % ulong_limit;
  }

  abbrev registration : ℕ → State World → Call
  registration p s = ucp_worker_set_am_recv_handler (s.am_tag % uint_limit) (some p)

  offer_am_id-announce :
      (p : ℕ) (s : State World)
      → let s1 = numbered p s in
        let reply = (lib.perform (registration p s) s1.world).0 in
        offer_am_id p s
        ≡ (run_handlers reply.incoming >>= λ _. announce p reply) (issued (registration p s) s1)
  unfolding offer_am_id take_am_tag basic_actions
  offer_am_id-announce p s = simp (run)

  numbered-Numbered :
      (p : ℕ) (s : State World) → Numbered s → Numbered (issued (registration p s) (numbered p s))
  unfolding registered
  numbered-Numbered p s h bound =
      let d : Distinct s = h (omega arith) in
      let tag = incremented s.am_tag (omega (arith, d.counted)) in
      let same = unchanged s.am_tag (omega (arith, d.counted)) in
      record {
        counted = omega (arith, tag, d.counted);
        below = (omega (arith, tag, same), below_larger s.am_tag _ _ (omega (arith, tag)) d.below);
        distinct = (rw same (distinct_next _ _ d.below), d.distinct);
      }

  -- What follows on the assignment of the number.
  abbrev registered_and_announced : ℕ → State World → Outcome (State World) (Unit {0})
  registered_and_announced p s =
      let reply = (lib.perform (registration p s) s.world).0 in
      (run_handlers reply.incoming >>= λ _. announce p reply)
        (issued (registration p s) (numbered p s))

  registered_and_announced-Kept :
      (p : ℕ) (s : State World) → Ensures (registered_and_announced p s) λ _ t. Kept s t
  registered_and_announced-Kept p s =
      let reply : Reply = (lib.perform (registration p s) s.world).0 in
      let s1 : State World = issued (registration p s) (numbered p s) in
      Ensures-map (λ _ t. Kept s1 t) (λ _ t. Kept s t) _
        (λ _ t k. record { keep = λ h. k.keep (numbered-Numbered p s h) })
        ((Preserves-bind (run_handlers reply.incoming) (λ _. announce p reply)
            (run_handlers-Kept reply.incoming) (λ _. announce-Kept p reply)).at
          s1)

  pub offer_am_id-Kept : (p : ℕ) → Preserves (Kept {World = World}) (offer_am_id p)
  offer_am_id-Kept p = record {
    at = λ s. rw (offer_am_id-announce p s) (registered_and_announced-Kept p s);
  }
