-- ===== src/Protocol/Invariant/Sender.antt =====
-- The steps of the sending process keep the invariant.
use mpi_comp_match.Base.{ℕ, ◌+◌, ◌*◌, ◌≤◌, ◌≡◌, refl, true, false, [], arith}
use mpi_comp_match.Protocol.System.{System, start_send, send_wires, advance}
use mpi_comp_match.Protocol.Invariant.Defs.{
  Place, busy, resting, offering, offered, push_all, Between, Inv, between, pushing, fetching,
}

module _ (message : ℕ → ℕ) (k : ℕ) (s : System) where
  start_send-Between :
      (b : Place) → Between message k resting b s → Inv message (start_send message s)
  unfolding start_send send_wires advance
  start_send-Between offered h = pushing k push_all (record {
    s_op = ground arith;
    s_active = refl;
    s_flag = ground arith;
    s_buf = ground arith;
    s_out = ground arith;
    receiver = h.receiver;
    r_flag = ground arith;
    holds = h.holds;
  })
  start_send-Between busy h = between k offering busy (ground arith)
  start_send-Between resting h = between k offering resting (ground arith)
  start_send-Between offering h = between k offering offering (ground arith)

pub start_send-Inv :
    (message : ℕ → ℕ) (s : System)
    → s.s_active ≡ false
    → Inv message s
    → Inv message (start_send message s)
start_send-Inv message s e (between k resting b h) = start_send-Between message k s b h
start_send-Inv message s e (between k busy b h) = absurd (ground arith)
start_send-Inv message s e (between k offering b h) = absurd (ground arith)
start_send-Inv message s e (between k offered b h) = absurd (ground arith)
start_send-Inv message s e (pushing k i h) = absurd (ground arith)
start_send-Inv message s e (fetching k j h) = absurd (ground arith)

pub ends_send-Inv :
    (message : ℕ → ℕ) (s : System)
    → s.s_active ≡ true
    → s.s_out ≡ []
    → s.s_op * 2 + 2 ≤ s.s_flag
    → Inv message s
    → Inv message (record s { s_active = false })
ends_send-Inv message s e out f (between k busy busy h) = between k resting busy (ground arith)
ends_send-Inv message s e out f (between k busy resting h) =
    between k resting resting (ground arith)
ends_send-Inv message s e out f (between k busy offering h) =
    between k resting offering (ground arith)
ends_send-Inv message s e out f (between k busy offered h) =
    between k resting offered (ground arith)
ends_send-Inv message s e out f (between k resting b h) = absurd (ground arith)
ends_send-Inv message s e out f (between k offering b h) = absurd (ground arith)
ends_send-Inv message s e out f (between k offered busy h) = absurd (ground arith)
ends_send-Inv message s e out f (between k offered _ h) = absurd (ground arith)
ends_send-Inv message s e out f (pushing k push_all h) = absurd (ground arith)
ends_send-Inv message s e out f (pushing k _ h) = absurd (ground arith)
ends_send-Inv message s e out f (fetching k j h) = absurd (ground arith)
