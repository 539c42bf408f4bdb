-- ===== src/ActiveMessage/Pair/Agreement.antt =====
-- Both sides connect where the AM_ID has been exchanged before their first waits.
use mpi_comp_match.Base.{◌≡◌, ◌≢◌, Bool, true, false, arith, ap}
use mpi_comp_match.ActiveMessage.Pair.{
  Mode, searching, connected, fallback, acknowledged, Transfer, idle, on_its_way, deferred,
  receiving, received_all, Pair, start_send_as, sender_tests, receiver_tests, end_send_as,
  b_recv_as, start_recv_as, end_recv_as, arrive_as, Step, delivers, acknowledges, starts_send,
  ends_send, starts_recv, ends_recv, arrives, completes, Run, stop, step,
}

-- The exchange is over, and no side has taken the fallback.
pub record Agreed (s : Pair) : Type 0 where
  pub exchange : s.exchange ≡ acknowledged
  pub s_mode : s.s_mode ≢ fallback
  pub r_mode : s.r_mode ≢ fallback

start_send_as-Agreed : (m : Mode) (s : Pair) → Agreed s → Agreed (start_send_as m s)
unfolding start_send_as
start_send_as-Agreed searching s h = ground arith
start_send_as-Agreed connected s h = ground arith
start_send_as-Agreed fallback s h = ground arith

end_send_as-Agreed : (m : Mode) (s : Pair) → Agreed s → Agreed (end_send_as m s)
unfolding end_send_as
end_send_as-Agreed searching s h = ground (arith, ap sender_tests h.exchange)
end_send_as-Agreed connected s h = ground arith
end_send_as-Agreed fallback s h = ground arith

b_recv_as-Agreed : (m : Transfer) (s : Pair) → Agreed s → Agreed (b_recv_as m s)
unfolding b_recv_as
b_recv_as-Agreed deferred s h = ground arith
b_recv_as-Agreed idle s h = ground arith
b_recv_as-Agreed on_its_way s h = ground arith
b_recv_as-Agreed receiving s h = ground arith
b_recv_as-Agreed received_all s h = ground arith

start_recv_as-Agreed : (m : Mode) (s : Pair) → Agreed s → Agreed (start_recv_as m s)
unfolding start_recv_as
start_recv_as-Agreed searching s h = ground arith
start_recv_as-Agreed connected s h = b_recv_as-Agreed s.active_message _ (ground arith)
start_recv_as-Agreed fallback s h = ground arith

end_recv_as-Agreed : (m : Mode) (s : Pair) → Agreed s → Agreed (end_recv_as m s)
unfolding end_recv_as
end_recv_as-Agreed searching s h = ground (arith, ap receiver_tests h.exchange)
end_recv_as-Agreed connected s h = ground arith
end_recv_as-Agreed fallback s h = ground arith

arrive_as-Agreed : (b : Bool) (s : Pair) → Agreed s → Agreed (arrive_as b s)
unfolding arrive_as
arrive_as-Agreed true s h = ground arith
arrive_as-Agreed false s h = ground arith

Step-Agreed : {s t : Pair} → Step s t → Agreed s → Agreed t
Step-Agreed (delivers e) h = ground arith
Step-Agreed (acknowledges e) h = ground arith
Step-Agreed {s} (starts_send e) h = start_send_as-Agreed s.s_mode s h
Step-Agreed {s} (ends_send e c) h = end_send_as-Agreed s.s_mode s h
Step-Agreed {s} (starts_recv e) h = start_recv_as-Agreed s.r_mode s h
Step-Agreed {s} (ends_recv e c) h = end_recv_as-Agreed s.r_mode s h
Step-Agreed {s} (arrives e) h = arrive_as-Agreed s.r_ready s h
Step-Agreed {s} (completes e) h = ground arith

-- Where the exchange is over before either side has taken the fallback, no side ever takes it.
Run-Agreed : (s t : Pair) → Run s t → Agreed s → Agreed t
Run-Agreed s t stop h = h
Run-Agreed s t (step e run) h = Run-Agreed _ _ run (Step-Agreed e h)
