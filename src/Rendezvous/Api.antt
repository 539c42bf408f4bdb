-- ===== src/Rendezvous/Api.antt =====
-- The functions of the interface that only call their internal ones, and `MPIOPT_Test`. The handle
-- that they take points to the request.
use mpi_comp_match.Base.{ℕ, false}
use mpi_comp_match.Rendezvous.Library.{Library}
use mpi_comp_match.Rendezvous.Machine.{M, ◌>>◌, assert}
use mpi_comp_match.Rendezvous.Progress.{progress_request, progress_other_requests}
use mpi_comp_match.Rendezvous.Start.{
  mpiopt_start_internal, mpiopt_start_send_internal, mpiopt_start_recv_internal,
}
use mpi_comp_match.Rendezvous.Wait.{
  mpiopt_wait_internal, mpiopt_wait_send_internal, mpiopt_wait_recv_internal,
}

module _ {World : Type 0} ⦃lib : Library World⦄ where
  unfoldable pub mpiopt_test_internal : ℕ → ℕ → M World (Unit {0})
  mpiopt_test_internal fuel p = do
    assert false
    progress_request (progress_other_requests fuel) fuel p

  unfoldable pub mpiopt_start : ℕ → ℕ → M World (Unit {0})
  mpiopt_start fuel p = mpiopt_start_internal fuel p

  unfoldable pub mpiopt_start_send : ℕ → ℕ → M World (Unit {0})
  mpiopt_start_send fuel p = mpiopt_start_send_internal fuel p

  unfoldable pub mpiopt_start_recv : ℕ → ℕ → M World (Unit {0})
  mpiopt_start_recv fuel p = mpiopt_start_recv_internal fuel p

  unfoldable pub mpiopt_wait_send : ℕ → ℕ → ℕ → M World (Unit {0})
  mpiopt_wait_send fuel p status = mpiopt_wait_send_internal fuel p status

  unfoldable pub mpiopt_wait_recv : ℕ → ℕ → ℕ → M World (Unit {0})
  mpiopt_wait_recv fuel p status = mpiopt_wait_recv_internal fuel p status

  unfoldable pub mpiopt_wait : ℕ → ℕ → ℕ → M World (Unit {0})
  mpiopt_wait fuel p status = mpiopt_wait_internal fuel p status

  unfoldable pub mpiopt_test : ℕ → ℕ → M World (Unit {0})
  mpiopt_test fuel p = mpiopt_test_internal fuel p
