-- ===== src/ActiveMessage/Pair/Split.antt =====
-- Where one side is connected and the other has taken the fallback.
use mpi_comp_match.Base.{ℕ, ◌≡◌, refl, true, false, Bool, arith}
use mpi_comp_match.ActiveMessage.Pair.{
  Mode, searching, connected, fallback, Transfer, idle, on_its_way, deferred, receiving,
  received_all, Pair, start_send_as, end_send_as, b_recv_as, start_recv_as, end_recv_as, arrive_as,
  CanEndSend, CanEndRecv, Step, delivers, acknowledges, starts_send, ends_send, starts_recv,
  ends_recv, arrives, completes, created, Run, stop, step,
}
use mpi_comp_match.ActiveMessage.Pair.Invariant.{Inv, Step-Inv, Run-Inv, created-Inv}

-- The sender sends active messages, the receiver waits in MPI_Wait, and both are in an operation.
record Hanging (s : Pair) : Type 0 where
  s_mode : s.s_mode ≡ connected
  r_mode : s.r_mode ≡ fallback
  s_active : s.s_active ≡ true
  r_active : s.r_active ≡ true

arrive_as-Hanging : (b : Bool) (s : Pair) → Hanging s → Hanging (arrive_as b s)
unfolding arrive_as
arrive_as-Hanging true s h = ground arith
arrive_as-Hanging false s h = ground arith

no_end_send : (m : Mode) (s : Pair) → s.s_mode ≡ m → CanEndSend m s → Inv s → Hanging s → ⊥
no_end_send searching s e c i h = ground arith
no_end_send connected s e c i h = ground arith
no_end_send fallback s e c i h = ground arith

no_end_recv : (m : Mode) (s : Pair) → s.r_mode ≡ m → CanEndRecv m s → Inv s → Hanging s → ⊥
no_end_recv searching s e c i h = ground arith
no_end_recv connected s e c i h = ground arith
no_end_recv fallback s e c i h = ground arith

Step-Hanging : {s t : Pair} → Step s t → Inv s → Hanging s → Hanging t
Step-Hanging (delivers e) i h = ground arith
Step-Hanging (acknowledges e) i h = ground arith
Step-Hanging {s} (starts_send e) i h = absurd (ground arith)
Step-Hanging {s} (ends_send e c) i h = absurd (no_end_send s.s_mode s refl c i h)
Step-Hanging {s} (starts_recv e) i h = absurd (ground arith)
Step-Hanging {s} (ends_recv e c) i h = absurd (no_end_recv s.r_mode s refl c i h)
Step-Hanging {s} (arrives e) i h = arrive_as-Hanging s.r_ready s h
Step-Hanging {s} (completes e) i h = ground arith

Run-Hanging : {s t : Pair} → Run s t → Inv s → Hanging s → Hanging t
Run-Hanging stop i h = h
Run-Hanging (step e run) i h = Run-Hanging run (Step-Inv e i) (Step-Hanging e i h)

-- Where the sender has connected and the receiver has taken the fallback, an operation that both have
-- started never ends, on either side, however the run goes on.
pub Run-hangs :
    (s t : Pair)
    → Run created s
    → s.s_mode ≡ connected
    → s.r_mode ≡ fallback
    → s.s_active ≡ true
    → s.r_active ≡ true
    → Run s t
    → (t.s_active ≡ true) × (t.r_active ≡ true)
Run-hangs s t before sm rm sa ra run =
    let h =
      Run-Hanging run (Run-Inv before created-Inv)
        (record { s_mode = sm; r_mode = rm; s_active = sa; r_active = ra }) in
    (h.s_active, h.r_active)

-- The sender sends ordinary messages, which the receiver does not look for.
record Losing (n : ℕ) (s : Pair) : Type 0 where
  s_mode : s.s_mode ≡ fallback
  r_mode : s.r_mode ≡ connected
  received : s.received ≡ n

start_send_as-Losing :
    (n : ℕ) (m : Mode) (s : Pair) → s.s_mode ≡ m → Losing n s → Losing n (start_send_as m s)
unfolding start_send_as
start_send_as-Losing n searching s e h = ground arith
start_send_as-Losing n connected s e h = ground arith
start_send_as-Losing n fallback s e h = ground arith

end_send_as-Losing :
    (n : ℕ) (m : Mode) (s : Pair) → s.s_mode ≡ m → Losing n s → Losing n (end_send_as m s)
unfolding end_send_as
end_send_as-Losing n searching s e h = absurd (ground arith)
end_send_as-Losing n connected s e h = ground arith
end_send_as-Losing n fallback s e h = ground arith

b_recv_as-Losing : (n : ℕ) (m : Transfer) (s : Pair) → Losing n s → Losing n (b_recv_as m s)
unfolding b_recv_as
b_recv_as-Losing n deferred s h = ground arith
b_recv_as-Losing n idle s h = ground arith
b_recv_as-Losing n on_its_way s h = ground arith
b_recv_as-Losing n receiving s h = ground arith
b_recv_as-Losing n received_all s h = ground arith

start_recv_as-Losing : (n : ℕ) (m : Mode) (s : Pair) → Losing n s → Losing n (start_recv_as m s)
unfolding start_recv_as
start_recv_as-Losing n searching s h = ground arith
start_recv_as-Losing n connected s h = b_recv_as-Losing n s.active_message _ (ground arith)
start_recv_as-Losing n fallback s h = ground arith

end_recv_as-Losing :
    (n : ℕ) (m : Mode) (s : Pair) → s.r_mode ≡ m → Losing n s → Losing n (end_recv_as m s)
unfolding end_recv_as
end_recv_as-Losing n searching s e h = absurd (ground arith)
end_recv_as-Losing n connected s e h = ground arith
end_recv_as-Losing n fallback s e h = absurd (ground arith)

arrive_as-Losing : (n : ℕ) (b : Bool) (s : Pair) → Losing n s → Losing n (arrive_as b s)
unfolding arrive_as
arrive_as-Losing n true s h = ground arith
arrive_as-Losing n false s h = ground arith

Step-Losing : (n : ℕ) {s t : Pair} → Step s t → Inv s → Losing n s → Losing n t
Step-Losing n (delivers e) i h = ground arith
Step-Losing n (acknowledges e) i h = ground arith
Step-Losing n {s} (starts_send e) i h = start_send_as-Losing n s.s_mode s refl h
Step-Losing n {s} (ends_send e c) i h = end_send_as-Losing n s.s_mode s refl h
Step-Losing n {s} (starts_recv e) i h = start_recv_as-Losing n s.r_mode s h
Step-Losing n {s} (ends_recv e c) i h = end_recv_as-Losing n s.r_mode s refl h
Step-Losing n {s} (arrives e) i h = arrive_as-Losing n s.r_ready s h
Step-Losing n {s} (completes e) i h = absurd (ground arith)

Run-Losing : (n : ℕ) {s t : Pair} → Run s t → Inv s → Losing n s → Losing n t
Run-Losing n stop i h = h
Run-Losing n (step e run) i h = Run-Losing n run (Step-Inv e i) (Step-Losing n e i h)

-- Where the sender has taken the fallback and the receiver has connected, no further message is ever
-- received, however many operations both sides start and end.
pub Run-loses :
    (s t : Pair)
    → Run created s
    → s.s_mode ≡ fallback
    → s.r_mode ≡ connected
    → Run s t
    → t.received ≡ s.received
Run-loses s t before sm rm run =
    let h =
      Run-Losing s.received run (Run-Inv before created-Inv)
        (record { s_mode = sm; r_mode = rm; received = refl }) in
    h.received
