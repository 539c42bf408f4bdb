-- ===== src/Protocol/Nested/Hang.antt =====
-- The run in which the sender is never told that its operation has finished.
use mpi_comp_match.Base.{ℕ, ◌+◌, ◌*◌, ◌≡◌, ◌≢◌, refl, true, Bool, List, [], ◌∷◌, arith}
use mpi_comp_match.Protocol.System.{
  Wire, put_flag, put_data, fence, System, Pc, inactive, started, waiting, starts_send, ends_send,
  starts_recv, enters_wait, ends_recv, reaches_receiver, reaches_sender, Takes, first, later,
  start_recv, start_send, send_wires, recv_wires, fetch_wires, progress_recv, progress_wires,
  advance, at_sender, at_receiver, Reach,
}
use mpi_comp_match.Protocol.Invariant.Defs.{offered, Between}
use mpi_comp_match.Protocol.Nested.{NestedStep, plain, fetches_while_waiting, NestedRun, stop, step}
use mpi_comp_match.Protocol.Nested.Early.{crosstalk-Between}
use mpi_comp_match.Protocol.Nested.Stuck.{Stuck, RunWithoutReceive, Stuck-waits}

module _ (message : ℕ → ℕ) where
  -- A run leads to a state in which both sides are in operation n and the sender is stuck.
  record GetsStuck (n : ℕ) (s : System) : Type 0 where
    final : System
    run : NestedRun message s final
    s_op : final.s_op ≡ n
    r_op : final.r_op ≡ n
    stuck : Stuck final

  before : {n : ℕ} {s t : System} → NestedStep message s t → GetsStuck n t → GetsStuck n s
  before e h = record {
    final = h.final;
    run = step e h.run;
    s_op = h.s_op;
    r_op = h.r_op;
    stuck = h.stuck;
  }

  -- All but the buffers.
  record Stands (s : System) (s_op s_flag : ℕ) (s_active : Bool) (s_out : List Wire)
      (r_op r_flag : ℕ) (r_pc : Pc) (r_out : List Wire) : Type 0 where
    is_s_op : s.s_op ≡ s_op
    is_s_flag : s.s_flag ≡ s_flag
    is_s_active : s.s_active ≡ s_active
    is_s_out : s.s_out ≡ s_out
    is_r_op : s.r_op ≡ r_op
    is_r_flag : s.r_flag ≡ r_flag
    is_r_pc : s.r_pc ≡ r_pc
    is_r_out : s.r_out ≡ r_out

  second :
      {l q : List Wire} {v w : Wire} → l ≡ v ∷ w ∷ q → v ≢ fence → w ≢ fence → Takes l w (v ∷ q)
  second e a b = rw e (later a b first)

  from_head : {l q : List Wire} {w : Wire} → l ≡ w ∷ q → Takes l w q
  from_head e = rw e first

  flag_fence : {v : ℕ} → put_flag v ≢ fence
  flag_fence e = ground arith

  module _ (n : ℕ) where
    -- The flag of operation n.
    abbrev done : ℕ
    done = n * 2 + 2

    -- The next operation is pushed, and its end reaches the receiver, but not the sender.
    at_end :
        (s : System)
        → Stands s (n + 1) done true [] (n + 1) (done + 2) waiting []
        → GetsStuck (n + 1) s
    at_end s h = before (plain (ends_recv h.is_r_pc (ground arith))) (record {
      final = record s { r_pc = inactive };
      run = stop;
      s_op = h.is_s_op;
      r_op = h.is_r_op;
      stuck = ground arith;
    })

    at_push_flag :
        (s : System)
        → Stands s (n + 1) done true (put_flag (done + 2) ∷ []) (n + 1) done started []
        → GetsStuck (n + 1) s
    unfolding at_receiver
    at_push_flag s h =
        before (plain (reaches_receiver (from_head h.is_s_out)))
          (before (plain (enters_wait h.is_r_pc (ground arith))) (at_end _ (ground arith)))

    at_push :
        (s : System)
        → Stands s
            (n + 1)
            done
            true
            (put_data ∷ fence ∷ put_flag (done + 2) ∷ [])
            (n + 1)
            done
            started
            []
        → GetsStuck (n + 1) s
    unfolding at_receiver
    at_push s h =
        before (plain (reaches_receiver (from_head h.is_s_out)))
          (before (plain (reaches_receiver (from_head refl))) (at_push_flag _ (ground arith)))

    -- The flag of operation n overwrites that of the next one, which the sender has seen.
    at_overwrite :
        (s : System)
        → Stands s
            (n + 1)
            (done + 2)
            true
            (put_data ∷ fence ∷ put_flag (done + 2) ∷ [])
            (n + 1)
            done
            started
            (put_flag done ∷ [])
        → GetsStuck (n + 1) s
    unfolding at_sender
    at_overwrite s h =
        before (plain (reaches_sender (from_head h.is_r_out))) (at_push _ (ground arith))

    at_next_send :
        (s : System)
        → Stands s n (done + 1) true [] (n + 1) done started (put_flag done ∷ [])
        → GetsStuck (n + 1) s
    unfolding start_send send_wires advance
    at_next_send s h =
        before (plain (ends_send h.is_s_active h.is_s_out (ground arith)))
          (before (plain (starts_send refl)) (at_overwrite _ (ground arith)))

    -- The offer of the next operation overtakes the flag of operation n.
    at_offer :
        (s : System) (flag : ℕ)
        → Stands s n flag true [] (n + 1) done started (put_flag done ∷ put_flag (done + 1) ∷ [])
        → GetsStuck (n + 1) s
    unfolding at_sender
    at_offer s flag h =
        before (plain (reaches_sender (second h.is_r_out flag_fence flag_fence)))
          (at_next_send _ (ground arith))

    at_next_recv :
        (s : System) (flag : ℕ)
        → Stands s n flag true [] n done inactive (put_flag done ∷ [])
        → GetsStuck (n + 1) s
    unfolding start_recv recv_wires advance
    at_next_recv s flag h = before (plain (starts_recv h.is_r_pc)) (at_offer _ flag (ground arith))

    at_fence :
        (s : System) (flag : ℕ)
        → Stands s n flag true [] n done inactive (fence ∷ put_flag done ∷ [])
        → GetsStuck (n + 1) s
    unfolding at_sender
    at_fence s flag h =
        before (plain (reaches_sender (from_head h.is_r_out))) (at_next_recv _ flag (ground arith))

    at_fetch :
        (s : System) (flag : ℕ)
        → Stands s n flag true [] n done inactive (fetch_wires n)
        → GetsStuck (n + 1) s
    unfolding at_sender
    at_fetch s flag h =
        before (plain (reaches_sender (from_head h.is_r_out))) (at_fence _ flag (ground arith))

  from_crosstalk :
      (k : ℕ) (s : System)
      → s.r_pc ≡ waiting
      → s.r_flag ≡ s.r_op * 2 + 1
      → Between message k offered offered s
      → GetsStuck (k + 1 + 1) s
  unfolding progress_recv progress_wires advance
  from_crosstalk k s e f h =
      before (fetches_while_waiting e)
        (before (plain (ends_recv e (ground arith))) (at_fetch (k + 1) _ s.s_flag (ground arith)))

  -- Some run leads to a state from which the sender's operation does not end.
  pub record Hangs (s : System) : Type 0 where
    pub final : System
    pub run : NestedRun message s final
    pub s_op : final.s_op ≡ s.s_op + 1
    pub r_op : final.r_op ≡ s.r_op + 1
    pub receiver : final.r_pc ≡ inactive
    pub waits : (t : System) → RunWithoutReceive message final t → t.s_active ≡ true

  -- In every state that is reached without nested progress, and in which the receiver finds that the
  -- sender has started too, a nested progress lets the flag of this operation overwrite that of the
  -- next one at the sender: some run ends the next operation at the receiver, and however it goes on,
  -- the sender stays in the next operation unless the receiver starts another one.
  pub Reach-Hangs :
      (s : System) → Reach message s → s.r_pc ≡ waiting → s.r_flag ≡ s.r_op * 2 + 1 → Hangs s
  Reach-Hangs s r e f =
      let (k, h) = crosstalk-Between message s r e f in
      let stuck = from_crosstalk k s e f h in
      record {
        final = stuck.final;
        run = stuck.run;
        s_op = omega (arith, stuck.s_op, h.sender.0);
        r_op = omega (arith, stuck.r_op, h.receiver.0);
        receiver = stuck.stuck.r_pc;
        waits = λ t run. Stuck-waits message run stuck.stuck;
      }
