-- ===== src/Tests/Runs.antt =====
-- Runs of the protocol: a push, and a fetch behind crosstalk.
use mpi_comp_match.Base.{ℕ, ◌+◌, refl, true, false, [], arith}
use mpi_comp_match.Protocol.System.{
  System, inactive, started, waiting, first, starts_send, ends_send, starts_recv, enters_wait,
  ends_recv, reaches_receiver, reaches_sender, Reach, start, next, start_send, start_recv,
  send_wires, recv_wires, advance, at_receiver, at_sender,
}
use mpi_comp_match.Protocol.Safety.{Near, Reach-Near}
use mpi_comp_match.Protocol.Nested.Early.{EndsEarly, Reach-EndsEarly}
use mpi_comp_match.Protocol.Nested.Hang.{Hangs, Reach-Hangs}

abbrev pub fill : ℕ → ℕ
fill n = n + 40

-- Operation 2, in which the receiver has started first and the sender pushes the data.
abbrev pub pushed : System
pushed = record {
  s_op = 2;
  s_flag = 6;
  s_buf = 42;
  s_out = [];
  s_active = false;
  r_op = 2;
  r_flag = 6;
  r_buf = 42;
  r_out = [];
  r_pc = inactive;
  copies = 1;
}

pushed-Reach : Reach fill pushed
unfolding start_send start_recv send_wires recv_wires advance at_receiver at_sender
pushed-Reach =
    next
      (next
        (next
          (next
            (next
              (next
                (next (next (next start (starts_recv refl)) (reaches_sender first))
                  (starts_send refl))
                (reaches_receiver first))
              (reaches_receiver first))
            (reaches_receiver first))
          (ends_send refl refl (ground arith)))
        (enters_wait refl refl))
      (ends_recv refl (ground arith))

-- Operation 2, in which each has found the other not ready, and both offers have arrived.
abbrev pub crossed : System
crossed = record {
  s_op = 2;
  s_flag = 5;
  s_buf = 42;
  s_out = [];
  s_active = true;
  r_op = 2;
  r_flag = 5;
  r_buf = 41;
  r_out = [];
  r_pc = started;
  copies = 0;
}

crossed-Reach : Reach fill crossed
unfolding start_send start_recv send_wires recv_wires advance at_receiver at_sender
crossed-Reach =
    next (next (next (next start (starts_recv refl)) (starts_send refl)) (reaches_sender first))
      (reaches_receiver first)

Reach-Near_example : Near fill crossed
Reach-Near_example = Reach-Near fill crossed crossed-Reach

crossed-waits : Reach fill (record crossed { r_pc = waiting })
crossed-waits = next crossed-Reach (enters_wait refl refl)

Reach-EndsEarly_example : EndsEarly fill (record crossed { r_pc = waiting })
Reach-EndsEarly_example = Reach-EndsEarly fill _ crossed-waits refl refl

Reach-Hangs_example : Hangs fill (record crossed { r_pc = waiting })
Reach-Hangs_example = Reach-Hangs fill _ crossed-waits refl refl
