-- ===== src/Protocol/Nested/Stuck.antt =====
-- A sender that waits for a flag that has been overwritten.
use mpi_comp_match.Base.{ℕ, ◌+◌, ◌*◌, ◌<◌, ◌≡◌, true, List, [], arith}
use mpi_comp_match.Protocol.System.{
  Wire, System, inactive, Step, starts_send, ends_send, starts_recv, progresses, enters_wait,
  resolves, ends_recv, ends_fetch, reaches_receiver, reaches_sender, Takes, first, later,
  start_recv, progress_recv, progress_wires, advance,
}
use mpi_comp_match.Protocol.Nested.{NestedStep, plain, fetches_while_waiting}

-- The sender is in its operation, nothing is on the way, and the receiver has ended its own one.
pub record Stuck (s : System) : Type 0 where
  pub s_active : s.s_active ≡ true
  pub s_out : s.s_out ≡ []
  pub s_flag : s.s_flag < s.s_op * 2 + 2
  pub r_pc : s.r_pc ≡ inactive
  pub r_out : s.r_out ≡ []
  pub r_flag : s.r_flag ≡ s.r_op * 2 + 2

nothing_taken : (l q : List Wire) (w : Wire) → l ≡ [] → Takes l w q → ⊥
nothing_taken l q w e first = ground arith
nothing_taken l q w e (later v n t) = ground arith

module _ (message : ℕ → ℕ) where
  -- A finite run in which the receiver starts no other operation.
  pub data RunWithoutReceive : System → System → Type 0 where
    stop : {s : System} → RunWithoutReceive s s
    step :
        {s t u : System}
        → NestedStep message s t
        → t.r_op ≡ s.r_op
        → RunWithoutReceive t u
        → RunWithoutReceive s u

  Step-Stuck : {s t : System} → Step message s t → t.r_op ≡ s.r_op → Stuck s → Stuck t
  unfolding start_recv progress_recv progress_wires advance
  Step-Stuck {s} (starts_send e) same h = absurd (ground (arith, h.s_active, e))
  Step-Stuck {s} (ends_send e out f) same h = absurd (omega (arith, h.s_flag, f))
  Step-Stuck {s} (starts_recv e) same h = absurd (omega (arith, same))
  Step-Stuck {s} (progresses pc) same h = ground arith
  Step-Stuck {s} (enters_wait e out) same h = absurd (ground (arith, h.r_pc, e))
  Step-Stuck {s} (resolves e f) same h = absurd (ground (arith, h.r_pc, e))
  Step-Stuck {s} (ends_recv e f) same h = absurd (ground (arith, h.r_pc, e))
  Step-Stuck {s} (ends_fetch e out) same h = absurd (ground (arith, h.r_pc, e))
  Step-Stuck {s} (reaches_receiver t) same h = absurd (nothing_taken _ _ _ h.s_out t)
  Step-Stuck {s} (reaches_sender t) same h = absurd (nothing_taken _ _ _ h.r_out t)

  NestedStep-Stuck : {s t : System} → NestedStep message s t → t.r_op ≡ s.r_op → Stuck s → Stuck t
  NestedStep-Stuck {s} (plain t) same h = Step-Stuck t same h
  NestedStep-Stuck {s} (fetches_while_waiting e) same h = absurd (ground (arith, h.r_pc, e))

  pub Stuck-waits : {s t : System} → RunWithoutReceive s t → Stuck s → t.s_active ≡ true
  Stuck-waits stop h = h.s_active
  Stuck-waits (step t same run) h = Stuck-waits run (NestedStep-Stuck t same h)
