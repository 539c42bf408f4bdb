-- ===== src/ActiveMessage/Machine.antt =====
-- One process of this variant. A call of the library runs the handlers of the messages that come in
-- during it; a handler's own call does not run others.
pub mod Run
use mpi_comp_match.Base.{ℕ, Bool, true, false, List, [], ◌∷◌, ◌==◌, if◌then◌else◌}
use mpi_comp_match.Machine.{
  Action, Outcome, done, fault, assertion_failed, update, ◌>>=◌, ◌>>◌, pure, fail, when, assert,
  get,
}
use mpi_comp_match.ActiveMessage.Request.{Request}
use mpi_comp_match.ActiveMessage.Library.{Call, Reply, Incoming, Library, ucp_am_recv_data_nbx}

pub record State (World : Type 0) : Type 0 where
  pub heap : ℕ → Request
  -- `request_list_head`, without its dummy head
  pub request_list : List ℕ
  -- `AM_tag`
  pub am_tag : ℕ
  pub world : World
  -- the calls made so far, latest first
  pub log : List Call

abbrev pub M : Type 0 → Type 0 → Type 0
M World A = Action (State World) A

-- The AM_ID of a request behind what has been written to it.
unfoldable pub am_id_after : List (ℕ × ℕ) → ℕ → ℕ → ℕ
am_id_after [] q v = v
am_id_after ((p, w) ∷ rest) q v = am_id_after rest q (if p == q then w else v)

abbrev pub land : List (ℕ × ℕ) → (ℕ → Request) → ℕ → Request
land writes heap q = record (heap q) { am_id = am_id_after writes q (heap q).am_id }

module _ {World : Type 0} where
  unfoldable pub load : ℕ → M World Request
  load p s = done (s.heap p) s

  unfoldable pub modify : ℕ → (Request → Request) → M World (Unit {0})
  modify p f s = done tt (record s { heap = update s.heap p f })

  -- A call without the handlers that run in it.
  unfoldable pub issue : ⦃lib : Library World⦄ → Call → M World Reply
  issue ⦃lib⦄ c s =
      let (reply, w) = lib.perform c s.world in
      done reply (record s { heap = land reply.am_ids s.heap; world = w; log = c ∷ s.log })

  -- The handler as it is compiled under USE_RENDEZVOUS, without its return value, which is always
  -- UCS_INPROGRESS.
  unfoldable pub incoming_am_msg_handler : ⦃lib : Library World⦄ → Incoming → M World (Unit {0})
  incoming_am_msg_handler m = do
    r ← load m.request
    assert (r.size == m.length)
    if m.is_rendezvous
        then (do
          assert (r.list_of_pending_msgs == 0)
          if r.is_ready_to_recv
              then (do
                assert (r.ucx_request_data_transfer == 0)
                reply ← issue (ucp_am_recv_data_nbx m.descriptor r.buf r.size r.send_flag)
                modify m.request (λ r. record r { ucx_request_data_transfer = reply.handle })
                modify m.request (λ r. record r { is_ready_to_recv = false }))
              else modify m.request (λ r. record r { list_of_pending_msgs = m.descriptor }))
        else fail assertion_failed

  unfoldable pub run_handlers : ⦃lib : Library World⦄ → List Incoming → M World (Unit {0})
  run_handlers [] = pure tt
  run_handlers (m ∷ rest) = do incoming_am_msg_handler m; run_handlers rest

  unfoldable pub call : ⦃lib : Library World⦄ → Call → M World Reply
  call c = do reply ← issue c; run_handlers reply.incoming; pure reply

  abbrev pub call_ : ⦃lib : Library World⦄ → Call → M World (Unit {0})
  call_ c = do reply ← call c; pure tt
