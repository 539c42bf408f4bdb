-- ===== src/Tests/Pairs.antt =====
-- Runs of a pair over active messages.
use mpi_comp_match.Base.{inl, ◌≡◌, refl, true, arith}
use mpi_comp_match.ActiveMessage.Pair.{
  connected, fallback, delivered, acknowledged, on_its_way, deferred, Pair, start_send_as,
  end_send_as, b_recv_as, start_recv_as, end_recv_as, arrive_as, delivers, acknowledges,
  starts_send, ends_send, starts_recv, ends_recv, arrives, created, Step, Run, stop, step,
}
use mpi_comp_match.ActiveMessage.Pair.Split.{Run-hangs, Run-loses}

unfoldable pair_opened : Unit {0}
unfolding start_send_as end_send_as b_recv_as start_recv_as end_recv_as arrive_as
pair_opened = tt

-- The AM_ID has come in, but the receiver does not know it in its first wait; the second operation.
abbrev split : Pair
split = record created {
  exchange = delivered;
  s_mode = connected;
  s_op = 2;
  s_active = true;
  r_mode = fallback;
  r_op = 2;
  r_active = true;
  r_posted = true;
  active_message = on_its_way;
  received = 1;
}

to_split : Run created split
unfolding pair_opened
to_split = step (starts_send refl) (
    step (starts_recv refl) (
      step (delivers refl) (
        step (ends_send refl (inl refl)) (
          step (ends_recv refl (refl, omega arith))
            (step (starts_send refl) (step (starts_recv refl) stop))))))

behind_split : Run split (record split { active_message = deferred; exchange = acknowledged })
unfolding pair_opened
behind_split = step (arrives refl) (step (acknowledges refl) stop)

Run-hangs_example : (true ≡ true) × (true ≡ true)
Run-hangs_example =
    Run-hangs split (record split { active_message = deferred; exchange = acknowledged }) to_split
      refl refl refl refl behind_split

-- The sender has not seen the AM_ID in its first wait, the receiver knows that it has come in.
abbrev losing : Pair
losing = record created {
  exchange = acknowledged;
  s_mode = fallback;
  s_op = 1;
  r_mode = connected;
  r_op = 1;
  received = 1;
}

to_losing : Run created losing
unfolding pair_opened
to_losing = step (starts_send refl) (
    step (starts_recv refl) (
      step (ends_send refl (inl refl)) (
        step (delivers refl)
          (step (acknowledges refl) (step (ends_recv refl (refl, omega arith)) stop)))))

-- A whole operation.
abbrev lost : Pair
lost = record losing { s_op = 2; r_op = 2; r_ready = true; ordinary = 1 }

abbrev sending : Pair
sending = record losing { s_op = 2; s_active = true; ordinary = 1 }

abbrev sent : Pair
sent = record losing { s_op = 2; ordinary = 1 }

abbrev ready : Pair
ready = record sent { r_op = 2; r_active = true; r_ready = true }

starts : Step losing sending
unfolding pair_opened
starts = starts_send refl

sends : Step sending sent
unfolding pair_opened
sends = ends_send refl tt

waits : Step sent ready
unfolding pair_opened
waits = starts_recv refl

returns_early : Step ready lost
unfolding pair_opened
returns_early = ends_recv refl (λ e. absurd (ground (arith, e)))

behind_losing : Run losing lost
behind_losing = step starts (step sends (step waits (step returns_early stop)))

Run-loses_example : lost.received ≡ losing.received
Run-loses_example = Run-loses losing lost to_losing refl refl behind_losing
