-- ===== src/Rendezvous/Transfer/Calls.antt =====
-- The calls that the transfer functions make, on every branch.
use mpi_comp_match.Base.{
  ℕ, ◌+◌, ◌*◌, ◌≡◌, ◌<◌, refl, true, false, [], ◌∷◌, ◌++◌, ◌==◌, ltb, inl, inr, Bool-cases,
  if◌then◌else◌, arith, ==_self, lt→ltb, ==_iff,
}
use mpi_comp_match.Machine.{int_limit}
use mpi_comp_match.Rendezvous.Request.{Request}
use mpi_comp_match.Rendezvous.Library.{Library, ucp_worker_progress}
use mpi_comp_match.Rendezvous.Machine.{State, Returns}
use mpi_comp_match.Rendezvous.Machine.Run.{run}
use mpi_comp_match.Rendezvous.Transfer.{b_send, b_recv, progress_recv_request}
use mpi_comp_match.Rendezvous.Transfer.Issued.{
  push_calls, offer_calls, fetch_calls, remote_has_started, NoError,
}

-- The tests on the numbers of operation n, below the overflow.
module _ (n : ℕ) (small : n * 2 + 2 < int_limit) where
  started_fits : ltb (n * 2 + 1) int_limit ≡ true
  started_fits = lt→ltb _ _ (omega arith)

  finished_fits : ltb (n * 2 + 2) int_limit ≡ true
  finished_fits = lt→ltb _ _ (omega arith)

  next_fits : ltb (n * 2 + 1 + 1) int_limit ≡ true
  next_fits = lt→ltb _ _ (omega arith)

  next_is_finished : (n * 2 + 1 + 1 == n * 2 + 2) ≡ true
  next_is_finished = ground arith

module _ {World : Type 0} ⦃lib : Library World⦄ (p : ℕ) (s : State World) where
  abbrev here : Request
  here = s.heap p

  started : remote_has_started here ≡ true → here.flag ≡ here.operation_number * 2 + 1
  started h = (==_iff _ _).0 h

  b_send-push :
      here.operation_number * 2 + 2 < int_limit
      → here.ucx_request_data_transfer ≡ 0
      → remote_has_started here ≡ true
      → Returns (b_send p s) λ _ s'.
        (s'.log ≡ push_calls p here ++ s.log)
        × ((s'.heap p).flag_buffer ≡ here.operation_number * 2 + 2)
  unfolding b_send
  b_send-push small idle e =
      simp
        (
          run,
          started e,
          started_fits,
          next_fits,
          finished_fits,
          next_is_finished,
          small,
          ==_self,
          idle,
        )
        (refl, refl)

  b_send-offer :
      here.operation_number * 2 + 2 < int_limit
      → here.ucx_request_flag_transfer ≡ 0
      → remote_has_started here ≡ false
      → Returns (b_send p s) λ _ s'.
        (s'.log ≡ offer_calls p here ++ s.log)
        × ((s'.heap p).flag_buffer ≡ here.operation_number * 2 + 1)
  unfolding b_send
  b_send-offer small idle e = simp (run, e, started_fits, small, idle) (refl, refl)

  -- With no transfer pending, `b_send` makes exactly one transfer: it pushes the data where the
  -- receiver has started, and else tells the receiver that the sender has. No assertion fails and
  -- nothing overflows while 2 n + 2 is an int, and `flag_buffer` holds the value that was put.
  pub b_send_lem :
      here.operation_number * 2 + 2 < int_limit
      → here.ucx_request_data_transfer ≡ 0
      → here.ucx_request_flag_transfer ≡ 0
      → Returns (b_send p s) λ _ s'.
        (s'.log
          ≡ (if remote_has_started here then push_calls p here else offer_calls p here) ++ s.log)
        × ((s'.heap p).flag_buffer
            ≡ here.operation_number * 2 + (if remote_has_started here then 2 else 1))
  b_send_lem small no_data no_flag = elim (Bool-cases (remote_has_started here)) [
    | inl e ↦ rw e (b_send-push small no_data e)
    | inr e ↦ rw e (b_send-offer small no_flag e)
  ]

  module _ (fine : NoError lib) where
    b_recv-fetch :
        here.operation_number * 2 + 2 < int_limit
        → here.ucx_request_data_transfer ≡ 0
        → remote_has_started here ≡ true
        → Returns (b_recv p s) λ _ s'.
          (s'.log ≡ ucp_worker_progress ∷ fetch_calls p here ++ s.log)
          × ((s'.heap p).flag_buffer ≡ here.operation_number * 2 + 2)
    unfolding b_recv
    b_recv-fetch small idle e =
        simp
          (
            run,
            started e,
            started_fits,
            next_fits,
            finished_fits,
            next_is_finished,
            small,
            ==_self,
            idle,
            fine.gets,
            fine.puts,
            fine.fences,
          )
          (refl, refl)

    b_recv-offer :
        here.operation_number * 2 + 2 < int_limit
        → here.ucx_request_flag_transfer ≡ 0
        → remote_has_started here ≡ false
        → Returns (b_recv p s) λ _ s'.
          (s'.log ≡ offer_calls p here ++ s.log)
          × ((s'.heap p).flag_buffer ≡ here.operation_number * 2 + 1)
    unfolding b_recv
    b_recv-offer small idle e = simp (run, e, started_fits, small, idle, fine.puts) (refl, refl)

    -- With no transfer pending, 2 n + 2 an int and no error of the library, `b_recv` fetches the data
    -- where the sender has started, and then signals the end; else it tells the sender that it has
    -- started. `flag_buffer` holds the value that was put.
    pub b_recv_lem :
        here.operation_number * 2 + 2 < int_limit
        → here.ucx_request_data_transfer ≡ 0
        → here.ucx_request_flag_transfer ≡ 0
        → Returns (b_recv p s) λ _ s'.
          (s'.log
            ≡ (if remote_has_started here
                then ucp_worker_progress ∷ fetch_calls p here
                else offer_calls p here)
              ++ s.log)
          × ((s'.heap p).flag_buffer
              ≡ here.operation_number * 2 + (if remote_has_started here then 2 else 1))
    b_recv_lem small no_data no_flag = elim (Bool-cases (remote_has_started here)) [
      | inl e ↦ rw e (b_recv-fetch small no_data e)
      | inr e ↦ rw e (b_recv-offer small no_flag e)
    ]

    progress-fetch :
        here.operation_number * 2 + 2 < int_limit
        → remote_has_started here ≡ true
        → Returns (progress_recv_request p s) λ _ s'.
          (s'.log ≡ ucp_worker_progress ∷ fetch_calls p here ++ s.log)
          × ((s'.heap p).flag_buffer ≡ here.operation_number * 2 + 2)
          × ((s'.heap p).ucx_request_flag_transfer ≡ here.ucx_request_flag_transfer)
    unfolding progress_recv_request
    progress-fetch small e =
        simp
          (
            run,
            started e,
            started_fits,
            next_fits,
            finished_fits,
            next_is_finished,
            small,
            ==_self,
            fine.gets,
            fine.puts,
            fine.fences,
          )
          (refl, refl, refl)

    progress-wait :
        here.operation_number * 2 + 2 < int_limit
        → remote_has_started here ≡ false
        → Returns (progress_recv_request p s) λ _ s'.
          (s'.log ≡ ucp_worker_progress ∷ s.log)
          × ((s'.heap p).flag_buffer ≡ here.flag_buffer)
          × ((s'.heap p).ucx_request_flag_transfer ≡ here.ucx_request_flag_transfer)
    unfolding progress_recv_request
    progress-wait small e = simp (run, e, started_fits, small) (refl, refl, refl)

    -- With 2 n + 2 an int and no error of the library, `progress_recv_request` fetches the data where
    -- the sender has started, and otherwise only progresses the library. It does so whatever transfers
    -- are pending: where it fetches, it overwrites `flag_buffer`, and it leaves the handle of a pending
    -- transfer of the flag as it is.
    pub progress_recv_request_lem :
        here.operation_number * 2 + 2 < int_limit
        → Returns (progress_recv_request p s) λ _ s'.
          (s'.log
            ≡ ucp_worker_progress ∷ (if remote_has_started here then fetch_calls p here else [])
              ++ s.log)
          × ((s'.heap p).flag_buffer ≡ (
              if remote_has_started here then here.operation_number * 2 + 2 else here.flag_buffer))
          × ((s'.heap p).ucx_request_flag_transfer ≡ here.ucx_request_flag_transfer)
    progress_recv_request_lem small = elim (Bool-cases (remote_has_started here)) [
      | inl e ↦ rw e (progress-fetch small e)
      | inr e ↦ rw e (progress-wait small e)
    ]
