-- ===== src/Protocol/Safety.antt =====
-- What the invariant says of every state that the steps of System reach: whose data the receiver holds, and how far the
-- two processes can be apart.
use mpi_comp_match.Base.{ℕ, ◌+◌, ◌*◌, ◌≤◌, ◌≡◌, false, arith}
use mpi_comp_match.Protocol.System.{
  System, inactive, Step, starts_send, ends_send, starts_recv, progresses, enters_wait, resolves,
  ends_recv, ends_fetch, reaches_receiver, reaches_sender, connected, Reach, start, next,
}
use mpi_comp_match.Protocol.Invariant.Defs.{
  busy, resting, offering, offered, Inv, between, pushing, fetching,
}
use mpi_comp_match.Protocol.Invariant.Sender.{start_send-Inv, ends_send-Inv}
use mpi_comp_match.Protocol.Invariant.Receiver.{
  start_recv-Inv, progress_recv-Inv, enters_wait-Inv, resolve_crosstalk-Inv, ends_recv-Inv,
  ends_fetch-Inv,
}
use mpi_comp_match.Protocol.Invariant.Network.{reaches_receiver-Inv, reaches_sender-Inv}

module _ (message : ℕ → ℕ) where
  connected-Inv : Inv message (connected message)
  connected-Inv = between 1 resting resting (ground arith)

  pub Step-Inv : {s t : System} → Step message s t → Inv message s → Inv message t
  Step-Inv {s} (starts_send e) h = start_send-Inv message s e h
  Step-Inv {s} (ends_send e out f) h = ends_send-Inv message s e out f h
  Step-Inv {s} (starts_recv e) h = start_recv-Inv message s e h
  Step-Inv {s} (progresses pc) h = progress_recv-Inv message s pc h
  Step-Inv {s} (enters_wait e out) h = enters_wait-Inv message s e out h
  Step-Inv {s} (resolves e f) h = resolve_crosstalk-Inv message s e f h
  Step-Inv {s} (ends_recv e f) h = ends_recv-Inv message s e f h
  Step-Inv {s} (ends_fetch e out) h = ends_fetch-Inv message s e out h
  Step-Inv {s} (reaches_receiver t) h = reaches_receiver-Inv message s t h
  Step-Inv {s} (reaches_sender t) h = reaches_sender-Inv message s t h

  pub Reach-Inv : {s : System} → Reach message s → Inv message s
  Reach-Inv start = connected-Inv
  Reach-Inv (next r t) = Step-Inv t (Reach-Inv r)

  inactive-received :
      (s : System)
      → s.r_pc ≡ inactive
      → Inv message s
      → (s.r_buf ≡ message s.r_op) × (s.copies + 1 ≡ s.r_op)
  inactive-received s e (between k a resting h) = ground arith
  inactive-received s e (between k a busy h) = absurd (h.receiver.1 e)
  inactive-received s e (between k a offering h) = absurd (ground arith)
  inactive-received s e (between k a offered h) = absurd (ground arith)
  inactive-received s e (pushing k i h) = absurd (ground arith)
  inactive-received s e (fetching k j h) = absurd (ground arith)

  -- By the steps of System: in every reachable state in which the receiver is between two operations,
  -- its buffer holds the message of its last operation, and each operation behind the first has copied the data by RDMA
  -- exactly once. This holds whatever the sender has done since, and in whatever order the network
  -- has carried out what no fence orders.
  pub Reach-received :
      (s : System)
      → Reach message s
      → s.r_pc ≡ inactive
      → (s.r_buf ≡ message s.r_op) × (s.copies + 1 ≡ s.r_op)
  Reach-received s r e = inactive-received s e (Reach-Inv r)

  inactive-sent : (s : System) → s.s_active ≡ false → Inv message s → s.r_buf ≡ message s.s_op
  inactive-sent s e (between k resting b h) = ground arith
  inactive-sent s e (between k busy b h) = absurd (ground arith)
  inactive-sent s e (between k offering b h) = absurd (ground arith)
  inactive-sent s e (between k offered b h) = absurd (ground arith)
  inactive-sent s e (pushing k i h) = absurd (ground arith)
  inactive-sent s e (fetching k j h) = absurd (ground arith)

  -- By the steps of System: in every reachable state in which the sender is between two operations, so
  -- that it may fill its buffer again, the receiver's buffer holds the message of the sender's last operation.
  pub Reach-sent : (s : System) → Reach message s → s.s_active ≡ false → s.r_buf ≡ message s.s_op
  Reach-sent s r e = inactive-sent s e (Reach-Inv r)

  -- The operations are matched in order, and the flags stay in the range of the two operations.
  abbrev pub Near : System → Type 0
  Near s =
      (s.s_op ≤ s.r_op + 1)
      × (s.r_op ≤ s.s_op + 1)
      × (s.s_flag ≤ s.s_op * 2 + 3)
      × (s.r_flag ≤ s.r_op * 2 + 3)

  Inv-Near : (s : System) → Inv message s → Near s
  Inv-Near s (between k busy busy h) = ground arith
  Inv-Near s (between k busy resting h) = ground arith
  Inv-Near s (between k busy offering h) = ground arith
  Inv-Near s (between k busy offered h) = ground arith
  Inv-Near s (between k resting busy h) = ground arith
  Inv-Near s (between k resting resting h) = ground arith
  Inv-Near s (between k resting offering h) = ground arith
  Inv-Near s (between k resting offered h) = ground arith
  Inv-Near s (between k offering busy h) = ground arith
  Inv-Near s (between k offering resting h) = ground arith
  Inv-Near s (between k offering offering h) = ground arith
  Inv-Near s (between k offering offered h) = ground arith
  Inv-Near s (between k offered busy h) = ground arith
  Inv-Near s (between k offered resting h) = ground arith
  Inv-Near s (between k offered offering h) = ground arith
  Inv-Near s (between k offered offered h) = ground arith
  Inv-Near s (pushing k i h) = ground arith
  Inv-Near s (fetching k j h) = ground arith

  -- In every reachable state the two sides are at most one operation apart, and the flag of each is
  -- at most 2 n + 3 in its operation n, which bounds the counting in a flag of type int.
  pub Reach-Near : (s : System) → Reach message s → Near s
  Reach-Near s r = Inv-Near s (Reach-Inv r)
