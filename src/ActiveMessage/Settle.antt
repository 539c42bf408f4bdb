-- ===== src/ActiveMessage/Settle.antt =====
-- How the first wait of a request settles between active messages and the fallback.
use mpi_comp_match.Base.{ℕ, ◌≡◌, refl, Bool, true, false, [], not, ◌==◌, if◌then◌else◌}
use mpi_comp_match.Machine.{Outcome, Returns, fault, assertion_failed}
use mpi_comp_match.Rendezvous.Request.{
  recv_request_type, send_request_type, send_request_type_use_fallback,
  recv_request_type_use_fallback,
}
use mpi_comp_match.ActiveMessage.Library.{Library, mpi_wait, mpi_test}
use mpi_comp_match.ActiveMessage.Machine.{State}
use mpi_comp_match.ActiveMessage.Machine.Run.{run}
use mpi_comp_match.ActiveMessage.Connection.{
  wait_send_when_searching_for_connection, wait_recv_when_searching_for_connection, wait_backup,
  test_exchange, set_type,
}

-- No message comes in during MPI_Wait and MPI_Test.
pub record IsQuiet {World : Type 0} (lib : Library World) : Type 0 where
  pub wait : (h : ℕ) (w : World) → (lib.perform (mpi_wait h) w).0.incoming ≡ []
  pub test : (h : ℕ) (w : World) → (lib.perform (mpi_test h) w).0.incoming ≡ []

module _ {World : Type 0} ⦃lib : Library World⦄ (quiet : IsQuiet lib) (p : ℕ)
    (s : State World) where
  -- The library behind the wait for the payload, and its answer to the test of the exchange.
  abbrev behind_wait : World
  behind_wait = (lib.perform (mpi_wait (s.heap p).backup_request) s.world).1

  abbrev pub tested : Bool
  tested = not ((lib.perform (mpi_test (s.heap p).rdma_exchange_request) behind_wait).0.value == 0)

  abbrev pub tested_handle : ℕ
  tested_handle = (lib.perform (mpi_test (s.heap p).rdma_exchange_request) behind_wait).0.handle

  -- The receiver's outcome, by the answer of its test and by whether the handle is then null.
  abbrev pub RecvSettles : (tested null : Bool) → Outcome (State World) (Unit {0}) → Type 0
  RecvSettles true true o = Returns o λ _ s'. (s'.heap p).type ≡ recv_request_type
  RecvSettles true false o = o ≡ fault assertion_failed
  RecvSettles false null o = Returns o λ _ s'. (s'.heap p).type ≡ recv_request_type_use_fallback

  recv_settles :
      (b c : Bool)
      → tested ≡ b
      → (tested_handle == 0) ≡ c
      → RecvSettles b c (wait_recv_when_searching_for_connection p s)
  unfolding wait_recv_when_searching_for_connection wait_backup test_exchange set_type
  recv_settles true true e h =
      simp (run, quiet.wait) (simp (run, quiet.test) (simp (run, e) (simp (run, h) refl)))
  recv_settles true false e h =
      simp (run, quiet.wait) (simp (run, quiet.test) (simp (run, e) (simp (run, h))))
  recv_settles false c e h = simp (run, quiet.wait) (simp (run, quiet.test) (simp (run, e) refl))

  -- The first wait of either side asks only its own MPI_Test whether the AM_ID has been exchanged: the
  -- sender becomes connected if it has, else it takes the fallback; so does the receiver, if its
  -- handle is then null, else an assertion fails.
  wait_when_searching_lem :
      (Returns (wait_send_when_searching_for_connection p s) λ _ s'.
        (s'.heap p).type ≡ (if tested then send_request_type else send_request_type_use_fallback))
      × RecvSettles tested (tested_handle == 0) (wait_recv_when_searching_for_connection p s)
  unfolding wait_send_when_searching_for_connection wait_backup test_exchange set_type
  wait_when_searching_lem = (
    simp (run, quiet.wait) (simp (run, quiet.test) refl),
    recv_settles tested (tested_handle == 0) refl refl,
  )
