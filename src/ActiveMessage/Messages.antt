-- ===== src/ActiveMessage/Messages.antt =====
-- What becomes of a message that comes in: the handler and `b_recv` under USE_RENDEZVOUS.
use mpi_comp_match.Base.{
  ℕ, ◌≡◌, refl, true, false, List, [], ◌∷◌, ◌++◌, ◌==◌, if◌then◌else◌, inl, inr, Bool-cases, ==_iff,
  ==_self,
}
use mpi_comp_match.Machine.{Returns}
use mpi_comp_match.ActiveMessage.Request.{Request}
use mpi_comp_match.ActiveMessage.Library.{
  Library, Call, Incoming, ucp_am_recv_data_nbx, ucp_worker_progress,
}
use mpi_comp_match.ActiveMessage.Machine.{State, incoming_am_msg_handler}
use mpi_comp_match.ActiveMessage.Machine.Run.{run, issued}
use mpi_comp_match.ActiveMessage.Transfer.{b_recv}

-- The descriptor of the message that a call starts to receive, where it is such a call.
abbrev received_by : Call → List ℕ
received_by (ucp_am_recv_data_nbx descriptor buf size flag) = descriptor ∷ []
received_by _ = []

-- The messages whose receipt has been started, latest first.
unfoldable pub receipts : List Call → List ℕ
receipts [] = []
receipts (c ∷ rest) = received_by c ++ receipts rest

-- The message that a request holds until its next start.
abbrev pub held : Request → List ℕ
held r = if r.list_of_pending_msgs == 0 then [] else r.list_of_pending_msgs ∷ []

-- A message for this request, of the right size, by the rendezvous protocol.
pub record Fits {World : Type 0} (p : ℕ) (s : State World) (m : Incoming) : Type 0 where
  pub request : m.request ≡ p
  pub size : (s.heap p).size ≡ m.length
  pub by_rendezvous : m.is_rendezvous ≡ true
  pub descriptor : (m.descriptor == 0) ≡ false

module _ {World : Type 0} ⦃lib : Library World⦄ (p : ℕ) where
  abbrev pub Accounted : List ℕ → State World → Type 0
  Accounted messages s = held (s.heap p) ++ receipts s.log ≡ messages

  handler-ready :
      (s : State World) (m : Incoming)
      → Fits p s m
      → (s.heap p).is_ready_to_recv ≡ true
      → (s.heap p).list_of_pending_msgs ≡ 0
      → (s.heap p).ucx_request_data_transfer ≡ 0
      → Returns (incoming_am_msg_handler m s) λ _ s'.
        (Accounted (m.descriptor ∷ receipts s.log) s') × ((s'.heap p).is_ready_to_recv ≡ false)
  unfolding incoming_am_msg_handler receipts
  handler-ready s m fits ready none_pending idle =
      simp (run, fits.request, fits.size, fits.by_rendezvous, ==_self, ready, none_pending, idle)
        (refl, refl)

  handler-waiting :
      (s : State World) (m : Incoming)
      → Fits p s m
      → (s.heap p).is_ready_to_recv ≡ false
      → (s.heap p).list_of_pending_msgs ≡ 0
      → Returns (incoming_am_msg_handler m s) λ _ s'.
        (Accounted (m.descriptor ∷ receipts s.log) s') × ((s'.heap p).is_ready_to_recv ≡ false)
  unfolding incoming_am_msg_handler receipts
  handler-waiting s m fits ready none_pending =
      simp (run, fits.request, fits.size, fits.by_rendezvous, ==_self, ready, none_pending)
        (simp fits.descriptor, refl)

  -- A message of the right size, by the rendezvous protocol, comes in for a request that holds none
  -- and has none in transfer while it is ready. The handler passes its assertions and the message is
  -- accounted for once: its receipt has been started, or the request holds it. The request is not
  -- ready any more, so the next message waits for the next start.
  incoming_am_msg_handler_lem :
      (s : State World) (m : Incoming)
      → Fits p s m
      → (s.heap p).list_of_pending_msgs ≡ 0
      → (s.heap p).ucx_request_data_transfer ≡ 0
      → Returns (incoming_am_msg_handler m s) λ _ s'.
        (Accounted (m.descriptor ∷ receipts s.log) s') × ((s'.heap p).is_ready_to_recv ≡ false)
  incoming_am_msg_handler_lem s m fits none_pending idle =
      elim (Bool-cases (s.heap p).is_ready_to_recv) [
        | inl ready ↦ handler-ready s m fits ready none_pending idle
        | inr waiting ↦ handler-waiting s m fits waiting none_pending
      ]

  -- No handler runs during this call.
  abbrev pub Silent : Call → State World → Type 0
  Silent c s = (lib.perform c s.world).0.incoming ≡ []

  -- The call by which `b_recv` receives the message that the request holds.
  abbrev pub receive_held : State World → Call
  receive_held s =
      ucp_am_recv_data_nbx (s.heap p).list_of_pending_msgs (s.heap p).buf (s.heap p).size
        (s.heap p).send_flag

  b_recv-held :
      (s : State World)
      → Silent ucp_worker_progress s
      → Silent (receive_held s) (issued ucp_worker_progress s)
      → (s.heap p).ucx_request_data_transfer ≡ 0
      → ((s.heap p).list_of_pending_msgs == 0) ≡ false
      → Returns (b_recv p s) λ _ s'.
        (Accounted (held (s.heap p) ++ receipts s.log) s')
        × ((s'.heap p).list_of_pending_msgs ≡ 0)
        × ((s'.heap p).is_ready_to_recv
            ≡ (if (s.heap p).list_of_pending_msgs == 0 then true else (s.heap p).is_ready_to_recv))
  unfolding b_recv receipts
  b_recv-held s silent silent' idle some_pending =
      simp (run, silent)
        (simp (run, some_pending, idle) (simp (run, silent', some_pending) (refl, refl, refl)))

  b_recv-empty :
      (s : State World)
      → Silent ucp_worker_progress s
      → ((s.heap p).list_of_pending_msgs == 0) ≡ true
      → Returns (b_recv p s) λ _ s'.
        (Accounted (held (s.heap p) ++ receipts s.log) s')
        × ((s'.heap p).list_of_pending_msgs ≡ 0)
        × ((s'.heap p).is_ready_to_recv
            ≡ (if (s.heap p).list_of_pending_msgs == 0 then true else (s.heap p).is_ready_to_recv))
  unfolding b_recv receipts
  b_recv-empty s silent none_pending =
      simp (run, silent) (simp (run, none_pending) (refl, (==_iff _ _).0 none_pending, refl))

  -- With no handler run by its two calls and no transfer pending, `b_recv` passes its assertion and
  -- loses and doubles no message: it starts the receipt of the message that the request holds, or
  -- makes the request ready for the next one. Then the request holds none.
  b_recv-Accounted :
      (s : State World)
      → Silent ucp_worker_progress s
      → Silent (receive_held s) (issued ucp_worker_progress s)
      → (s.heap p).ucx_request_data_transfer ≡ 0
      → Returns (b_recv p s) λ _ s'.
        (Accounted (held (s.heap p) ++ receipts s.log) s')
        × ((s'.heap p).list_of_pending_msgs ≡ 0)
        × ((s'.heap p).is_ready_to_recv
            ≡ (if (s.heap p).list_of_pending_msgs == 0 then true else (s.heap p).is_ready_to_recv))
  b_recv-Accounted s silent silent' idle =
      elim (Bool-cases ((s.heap p).list_of_pending_msgs == 0)) [
        | inl e ↦ b_recv-empty s silent e
        | inr e ↦ b_recv-held s silent silent' idle e
      ]
