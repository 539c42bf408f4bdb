-- ===== src/Protocol/Nested.antt =====
-- The protocol where `e_recv` is interrupted: in its loop it progresses the other requests, one of
-- these may wait in receive_rdma_info for its handshake, and that progresses the first request again,
-- which fetches its data. Behind the loop e_recv then finds the operation finished.
pub mod Early
pub mod Stuck
pub mod Hang
use mpi_comp_match.Base.{ℕ, ◌≡◌, ◌+◌, ◌*◌, ◌<◌, true, [], ◌⊎◌}
use mpi_comp_match.Protocol.System.{
  System, inactive, waiting, Step, progress_recv, Reach, start_recv,
}

pub data NestedStep (message : ℕ → ℕ) (s : System) : System → Type 0 where
  plain : {t : System} → Step message s t → NestedStep message s t
  -- progress_recv_request of a request that is waited for
  fetches_while_waiting : s.r_pc ≡ waiting → NestedStep message s (progress_recv s)

-- A finite run.
pub data NestedRun (message : ℕ → ℕ) : System → System → Type 0 where
  stop : {s : System} → NestedRun message s s
  step : {s t u : System} → NestedStep message s t → NestedRun message t u → NestedRun message s u
