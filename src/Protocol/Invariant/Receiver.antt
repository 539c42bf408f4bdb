-- ===== src/Protocol/Invariant/Receiver.antt =====
-- The steps of the receiving process keep the invariant.
use mpi_comp_match.Base.{ℕ, ◌+◌, ◌*◌, ◌<◌, ◌≡◌, ◌⊎◌, [], arith}
use mpi_comp_match.Protocol.System.{
  inactive, started, waiting, completing, System, start_recv, progress_recv, resolve_crosstalk,
  recv_wires, progress_wires, advance,
}
use mpi_comp_match.Protocol.Invariant.Defs.{
  Place, busy, resting, offering, offered, FlagAt, push_all, push_fence, push_flag, offer_all,
  offer_fence, fetch_all, fetch_fence, fetch_flag, Between, Inv, between, pushing, fetching,
}

module _ (message : ℕ → ℕ) (s : System) where
  start_recv-Between :
      (k : ℕ) (a : Place) → Between message k a resting s → Inv message (start_recv s)
  unfolding start_recv recv_wires advance
  start_recv-Between k offered h = fetching k fetch_all (ground arith)
  start_recv-Between k busy h = between k busy offering (ground arith)
  start_recv-Between k resting h = between k resting offering (ground arith)
  start_recv-Between k offering h = between k offering offering (ground arith)

  pub start_recv-Inv : s.r_pc ≡ inactive → Inv message s → Inv message (start_recv s)
  start_recv-Inv e (between k a resting h) = start_recv-Between k a h
  start_recv-Inv e (between k a busy h) = absurd (h.receiver.1 e)
  start_recv-Inv e (between k a offering h) = absurd (ground arith)
  start_recv-Inv e (between k a offered h) = absurd (ground arith)
  start_recv-Inv e (pushing k i h) = absurd (ground arith)
  start_recv-Inv e (fetching k j h) = absurd (ground arith)

  progress_recv-Between :
      (k : ℕ) (a b : Place)
      → (s.r_pc ≡ inactive) ⊎ (s.r_pc ≡ started)
      → Between message k a b s
      → Inv message (progress_recv s)
  unfolding progress_recv progress_wires advance
  progress_recv-Between k offered offering pc h = fetching k offer_all (ground arith)
  progress_recv-Between k offered offered pc h = fetching k fetch_all (ground arith)
  progress_recv-Between k offered busy pc h = between k offered busy (ground arith)
  progress_recv-Between k offered resting pc h = between k offered resting (ground arith)
  progress_recv-Between k busy busy pc h = between k busy busy (ground arith)
  progress_recv-Between k busy resting pc h = between k busy resting (ground arith)
  progress_recv-Between k busy offering pc h = between k busy offering (ground arith)
  progress_recv-Between k busy offered pc h = between k busy offered (ground arith)
  progress_recv-Between k resting busy pc h = between k resting busy (ground arith)
  progress_recv-Between k resting resting pc h = between k resting resting (ground arith)
  progress_recv-Between k resting offering pc h = between k resting offering (ground arith)
  progress_recv-Between k resting offered pc h = between k resting offered (ground arith)
  progress_recv-Between k offering busy pc h = between k offering busy (ground arith)
  progress_recv-Between k offering resting pc h = between k offering resting (ground arith)
  progress_recv-Between k offering offering pc h = between k offering offering (ground arith)
  progress_recv-Between k offering offered pc h = between k offering offered (ground arith)

  pub progress_recv-Inv :
      (s.r_pc ≡ inactive) ⊎ (s.r_pc ≡ started) → Inv message s → Inv message (progress_recv s)
  unfolding progress_recv progress_wires advance
  progress_recv-Inv pc (between k a b h) = progress_recv-Between k a b pc h
  progress_recv-Inv pc (pushing k push_all h) = pushing k push_all (ground arith)
  progress_recv-Inv pc (pushing k push_fence h) = pushing k push_fence (ground arith)
  progress_recv-Inv pc (pushing k push_flag h) = pushing k push_flag (ground arith)
  progress_recv-Inv pc (fetching k offer_all h) = fetching k offer_all (ground arith)
  progress_recv-Inv pc (fetching k offer_fence h) = fetching k offer_fence (ground arith)
  progress_recv-Inv pc (fetching k fetch_all h) = fetching k fetch_all (ground arith)
  progress_recv-Inv pc (fetching k fetch_fence h) = fetching k fetch_fence (ground arith)
  progress_recv-Inv pc (fetching k fetch_flag h) = fetching k fetch_flag (ground arith)

  pub enters_wait-Inv :
      s.r_pc ≡ started → s.r_out ≡ [] → Inv message s → Inv message (record s { r_pc = waiting })
  enters_wait-Inv e out (between k a busy h) = between k a busy (record {
    sender = h.sender;
    receiver = ground arith;
    s_flag = h.s_flag;
    r_flag = h.r_flag;
    holds = h.holds;
  })
  enters_wait-Inv e out (between k a offered h) = between k a offered (record {
    sender = h.sender;
    receiver = ground arith;
    s_flag = h.s_flag;
    r_flag = h.r_flag;
    holds = h.holds;
  })
  enters_wait-Inv e out (between k a resting h) = absurd (ground arith)
  enters_wait-Inv e out (between k a offering h) = absurd (ground arith)
  enters_wait-Inv e out (pushing k i h) = pushing k i (record {
    s_op = h.s_op;
    s_active = h.s_active;
    s_flag = h.s_flag;
    s_buf = h.s_buf;
    s_out = h.s_out;
    receiver = ground arith;
    r_flag = h.r_flag;
    holds = h.holds;
  })
  enters_wait-Inv e out (fetching k offer_all h) = absurd (ground arith)
  enters_wait-Inv e out (fetching k _ h) = absurd (ground arith)

  pub resolve_crosstalk-Inv :
      s.r_pc ≡ waiting
      → s.r_flag ≡ s.r_op * 2 + 1
      → Inv message s
      → Inv message (resolve_crosstalk s)
  unfolding resolve_crosstalk recv_wires advance
  resolve_crosstalk-Inv e f (between k offered offered h) = fetching k fetch_all (ground arith)
  resolve_crosstalk-Inv e f (between k busy offered h) = absurd (ground arith)
  resolve_crosstalk-Inv e f (between k resting offered h) = absurd (ground arith)
  resolve_crosstalk-Inv e f (between k offering offered h) = absurd (ground arith)
  resolve_crosstalk-Inv e f (between k offered busy h) = absurd (ground arith)
  resolve_crosstalk-Inv e f (between k _ busy h) = absurd (ground arith)
  resolve_crosstalk-Inv e f (between k a resting h) = absurd (ground arith)
  resolve_crosstalk-Inv e f (between k a offering h) = absurd (ground arith)
  resolve_crosstalk-Inv e f (pushing k i h) = absurd (ground arith)
  resolve_crosstalk-Inv e f (fetching k j h) = absurd (ground arith)

  -- A receive that ends is one whose transfer is complete.
  ended-Inv :
      (k : ℕ) (a : Place) → Between message k a busy s → Inv message (record s { r_pc = inactive })
  ended-Inv k a h = between k a resting (record {
    sender = h.sender;
    receiver = ground arith;
    s_flag = keep a h.s_flag;
    r_flag = relax a h.r_flag;
    holds = h.holds;
  })
    where
      keep : (c : Place) → FlagAt k c busy s.s_flag → FlagAt k c resting s.s_flag
      keep busy e = e
      keep resting e = e
      keep offering e = e
      keep offered e = e

      relax : (c : Place) → FlagAt k busy c s.r_flag → FlagAt k resting c s.r_flag
      relax offered e = e
      relax busy e = omega arith
      relax resting e = omega arith
      relax offering e = omega arith

  pub ends_recv-Inv :
      s.r_pc ≡ waiting
      → s.r_op * 2 + 1 < s.r_flag
      → Inv message s
      → Inv message (record s { r_pc = inactive })
  ends_recv-Inv e f (between k a busy h) = ended-Inv k a h
  ends_recv-Inv e f (between k a resting h) = absurd (ground arith)
  ends_recv-Inv e f (between k a offering h) = absurd (ground arith)
  ends_recv-Inv e f (between k offered offered h) = absurd (ground arith)
  ends_recv-Inv e f (between k _ offered h) = absurd (ground arith)
  ends_recv-Inv e f (pushing k i h) = absurd (ground arith)
  ends_recv-Inv e f (fetching k j h) = absurd (ground arith)

  pub ends_fetch-Inv :
      s.r_pc ≡ completing
      → s.r_out ≡ []
      → Inv message s
      → Inv message (record s { r_pc = inactive })
  ends_fetch-Inv e out (between k a busy h) = ended-Inv k a h
  ends_fetch-Inv e out (between k a resting h) = absurd (ground arith)
  ends_fetch-Inv e out (between k a offering h) = absurd (ground arith)
  ends_fetch-Inv e out (between k a offered h) = absurd (ground arith)
  ends_fetch-Inv e out (pushing k i h) = absurd (ground arith)
  ends_fetch-Inv e out (fetching k offer_all h) = absurd (ground arith)
  ends_fetch-Inv e out (fetching k _ h) = absurd (ground arith)
