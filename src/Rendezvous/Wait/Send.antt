-- ===== src/Rendezvous/Wait/Send.antt =====
-- `e_send` returns once the transfers and the receiver complete.
use mpi_comp_match.Base.{ℕ, ◌+◌, ◌*◌, ◌≤◌, ◌<◌, ◌≡◌}
use mpi_comp_match.Machine.{int_limit}
use mpi_comp_match.Rendezvous.Library.{Library}
use mpi_comp_match.Rendezvous.Machine.{State}
use mpi_comp_match.Rendezvous.Wait.Complete.{Completes, Waits}

-- Operation n has finished at the receiver, and the handles of the two transfers are these.
abbrev pub Ended : {World : Type 0} → (p n d f : ℕ) → State World → Type 0
Ended p n d f s =
    (n * 2 + 2 ≤ (s.heap p).flag)
    × ((s.heap p).ucx_request_data_transfer ≡ d)
    × ((s.heap p).ucx_request_flag_transfer ≡ f)

module _ {World : Type 0} ⦃lib : Library World⦄ (p n : ℕ) (small : n * 2 + 2 < int_limit)
    (completes : Completes lib p (n * 2 + 2)) where
  abbrev pub Waiting : (most d f : ℕ) → State World → Type 0
  Waiting = Waits p n small completes
