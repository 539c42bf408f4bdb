-- ===== src/Protocol/Nested/Early.antt =====
-- e_recv returns before the data has come.
use mpi_comp_match.Base.{ℕ, ◌+◌, ◌*◌, ◌≡◌, refl, arith}
use mpi_comp_match.Protocol.System.{
  System, inactive, waiting, ends_recv, fetch_wires, progress_recv, progress_wires, advance, Reach,
}
use mpi_comp_match.Protocol.Invariant.Defs.{
  busy, resting, offering, offered, Between, Inv, between, pushing, fetching,
}
use mpi_comp_match.Protocol.Safety.{Reach-Inv}
use mpi_comp_match.Protocol.Nested.{plain, fetches_while_waiting, NestedRun, stop, step}

module _ (message : ℕ → ℕ) where
  -- Both have offered operation k + 1, and the offers have come in.
  pub crosstalk-Between :
      (s : System)
      → Reach message s
      → s.r_pc ≡ waiting
      → s.r_flag ≡ s.r_op * 2 + 1
      → (k : ℕ) × Between message k offered offered s
  crosstalk-Between s r e f = go (Reach-Inv message r)
    where
      go : Inv message s → (k : ℕ) × Between message k offered offered s
      go (between k offered offered h) = (k, h)
      go (between k busy busy h) = absurd (ground arith)
      go (between k busy resting h) = absurd (ground arith)
      go (between k busy offering h) = absurd (ground arith)
      go (between k busy offered h) = absurd (ground arith)
      go (between k resting busy h) = absurd (ground arith)
      go (between k resting resting h) = absurd (ground arith)
      go (between k resting offering h) = absurd (ground arith)
      go (between k resting offered h) = absurd (ground arith)
      go (between k offering busy h) = absurd (ground arith)
      go (between k offering resting h) = absurd (ground arith)
      go (between k offering offering h) = absurd (ground arith)
      go (between k offering offered h) = absurd (ground arith)
      go (between k offered busy h) = absurd (ground arith)
      go (between k offered resting h) = absurd (ground arith)
      go (between k offered offering h) = absurd (ground arith)
      go (pushing k i h) = absurd (ground arith)
      go (fetching k j h) = absurd (ground arith)

  -- Some run ends the receive of operation k + 1 while the buffer holds the message of operation k.
  pub record EndsEarly (s : System) : Type 0 where
    pub final : System
    pub run : NestedRun message s final
    pub operation : ℕ
    pub ended : final.r_pc ≡ inactive
    pub r_op : final.r_op ≡ operation + 1
    pub same : s.r_op ≡ operation + 1
    pub r_buf : final.r_buf ≡ message operation
    pub pending : final.r_out ≡ fetch_wires (operation + 1)

  -- In every state that is reached without nested progress, and in which the receiver finds that the
  -- sender has started too, a nested progress lets e_recv return early: the buffer holds the message
  -- of the operation before, and the fetch of the data is pending.
  pub Reach-EndsEarly :
      (s : System) → Reach message s → s.r_pc ≡ waiting → s.r_flag ≡ s.r_op * 2 + 1 → EndsEarly s
  unfolding progress_recv progress_wires advance
  Reach-EndsEarly s r e f =
      let (k, h) = crosstalk-Between s r e f in
      record {
        final = record (progress_recv s) { r_pc = inactive };
        run = step (fetches_while_waiting e) (step (plain (ends_recv e (ground arith))) stop);
        operation = k;
        ended = refl;
        r_op = ground arith;
        same = ground arith;
        r_buf = ground arith;
        pending = ground arith;
      }
