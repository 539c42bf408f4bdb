-- ===== src/ActiveMessage/Pair/Invariant.antt =====
-- What holds of every state of the pair.
use mpi_comp_match.Base.{
  if◌then◌else◌, ℕ, ◌+◌, ◌≡◌, ◌≢◌, ◌⊎◌, inl, inr, refl, true, false, Bool, arith,
}
use mpi_comp_match.ActiveMessage.Pair.{
  Mode, searching, connected, fallback, Exchange, posted, delivered, acknowledged, Transfer, idle,
  on_its_way, deferred, receiving, received_all, Pair, start_send_as, receiver_tests, end_send_as,
  b_recv_as, start_recv_as, end_recv_as, arrive_as, CanEndSend, CanEndRecv, Step, delivers,
  acknowledges, starts_send, ends_send, starts_recv, ends_recv, arrives, completes, created, Run,
  stop, step,
}

-- The first receive is done.
abbrev pub settled : Mode → ℕ
settled searching = 0
settled _ = 1

pub record Inv (s : Pair) : Type 0 where
  pub unsent : s.s_mode ≡ searching → s.s_active ≡ false → (s.ordinary ≡ 0) × (s.r_mode ≡ searching)
  pub sent_first : s.s_mode ≡ searching → s.s_active ≡ true → s.ordinary + settled s.r_mode ≡ 1
  pub sent : s.s_mode ≡ connected → s.ordinary + settled s.r_mode ≡ 1
  pub silent : s.s_mode ≢ connected → s.active_message ≡ idle
  pub no_transfer :
      s.r_mode ≢ connected
      → (s.r_ready ≡ false) × ((s.active_message ≢ receiving) × (s.active_message ≢ received_all))
  pub counted : s.r_mode ≢ connected → s.received + (if s.r_active then 1 else 0) ≡ s.r_op
  pub carried : s.s_mode ≢ connected → s.r_mode ≢ connected → s.received + s.ordinary ≡ s.s_op

start_send_as-Inv :
    (m : Mode) (s : Pair) → s.s_mode ≡ m → s.s_active ≡ false → Inv s → Inv (start_send_as m s)
unfolding start_send_as
start_send_as-Inv searching s e a h = ground arith
start_send_as-Inv connected s e a h = ground arith
start_send_as-Inv fallback s e a h = ground arith

end_send_as-Inv :
    (m : Mode) (s : Pair)
    → s.s_mode ≡ m
    → s.s_active ≡ true
    → CanEndSend m s
    → Inv s
    → Inv (end_send_as m s)
unfolding end_send_as
end_send_as-Inv searching s e a c h = ground arith
end_send_as-Inv connected s e a c h = ground arith
end_send_as-Inv fallback s e a c h = ground arith

b_recv_as-Inv :
    (m : Transfer) (s : Pair)
    → s.active_message ≡ m
    → s.r_mode ≡ connected
    → Inv s
    → Inv (b_recv_as m s)
unfolding b_recv_as
b_recv_as-Inv deferred s e c h = ground arith
b_recv_as-Inv idle s e c h = ground arith
b_recv_as-Inv on_its_way s e c h = ground arith
b_recv_as-Inv receiving s e c h = ground arith
b_recv_as-Inv received_all s e c h = ground arith

start_recv_as-Inv :
    (m : Mode) (s : Pair) → s.r_mode ≡ m → s.r_active ≡ false → Inv s → Inv (start_recv_as m s)
unfolding start_recv_as
start_recv_as-Inv searching s e a h = ground arith
start_recv_as-Inv connected s e a h = b_recv_as-Inv s.active_message _ refl e (ground arith)
start_recv_as-Inv fallback s e a h = ground arith

settles : (e : Exchange) → (receiver_tests e ≡ connected) ⊎ (receiver_tests e ≡ fallback)
settles posted = inr refl
settles delivered = inr refl
settles acknowledged = inl refl

end_recv_as-Inv :
    (m : Mode) (s : Pair)
    → s.r_mode ≡ m
    → s.r_active ≡ true
    → CanEndRecv m s
    → Inv s
    → Inv (end_recv_as m s)
unfolding end_recv_as
end_recv_as-Inv searching s e a c h = ground (arith, settles s.exchange)
end_recv_as-Inv connected s e a c h = ground arith
end_recv_as-Inv fallback s e a c h = ground arith

arrive_as-Inv :
    (b : Bool) (s : Pair)
    → s.r_ready ≡ b
    → s.active_message ≡ on_its_way
    → Inv s
    → Inv (arrive_as b s)
unfolding arrive_as
arrive_as-Inv true s e w h = ground arith
arrive_as-Inv false s e w h = ground arith

pub Step-Inv : {s t : Pair} → Step s t → Inv s → Inv t
Step-Inv (delivers e) h = ground arith
Step-Inv (acknowledges e) h = ground arith
Step-Inv {s} (starts_send e) h = start_send_as-Inv s.s_mode s refl e h
Step-Inv {s} (ends_send e c) h = end_send_as-Inv s.s_mode s refl e c h
Step-Inv {s} (starts_recv e) h = start_recv_as-Inv s.r_mode s refl e h
Step-Inv {s} (ends_recv e c) h = end_recv_as-Inv s.r_mode s refl e c h
Step-Inv {s} (arrives e) h = arrive_as-Inv s.r_ready s refl e h
Step-Inv {s} (completes e) h = ground arith

pub Run-Inv : {s t : Pair} → Run s t → Inv s → Inv t
Run-Inv stop h = h
Run-Inv (step e run) h = Run-Inv run (Step-Inv e h)

pub created-Inv : Inv created
created-Inv = ground arith
