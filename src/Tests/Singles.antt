-- ===== src/Tests/Singles.antt =====
-- Runs of a pair whose receiving process has no other request.
use mpi_comp_match.Base.{◌+◌, ◌≡◌, refl, arith}
use mpi_comp_match.Protocol.System.{
  first, ends_send, enters_wait, ends_recv, reaches_receiver, reaches_sender, start_send,
  start_recv, send_wires, recv_wires, advance, at_receiver, at_sender,
}
use mpi_comp_match.Protocol.Single.{
  Single, buffer_after, here, single_starts_send, single_starts_recv, acts, reads_receiver,
  connected_single, SingleRun, stop, step,
}
use mpi_comp_match.Protocol.Single.Received.{SingleRun-received, SingleRun-sent}
use mpi_comp_match.Protocol.Single.Ends.{SingleFinishes, SingleRun-Finishes}
use mpi_comp_match.Tests.Runs.{fill, pushed, crossed}

-- Operation 2: the put of the receiver's offer reads its buffer late, then the sender pushes.
abbrev pushed_single : Single
pushed_single = record { system = pushed; s_buffer = 6; r_buffer = 5 }

to_pushed : SingleRun fill (connected_single fill) pushed_single
unfolding start_send start_recv send_wires recv_wires advance at_receiver at_sender buffer_after
to_pushed = step (single_starts_recv refl) (
    step (reads_receiver here) (
      step (acts (reaches_sender first) tt) (
        step (single_starts_send refl) (
          step (acts (reaches_receiver first) tt) (
            step (acts (reaches_receiver first) tt) (
              step (acts (reaches_receiver first) tt) (
                step (acts (ends_send refl refl (ground arith)) tt) (
                  step (acts (enters_wait refl refl) tt)
                    (step (acts (ends_recv refl (ground arith)) tt) stop)))))))))

SingleRun-received_example : (pushed.r_buf ≡ fill 2) × (pushed.copies + 1 ≡ 2)
SingleRun-received_example = SingleRun-received fill pushed_single to_pushed refl

SingleRun-sent_example : pushed.r_buf ≡ fill 2
SingleRun-sent_example = SingleRun-sent fill pushed_single to_pushed refl

-- Both have found the other not ready.
abbrev crossed_single : Single
crossed_single = record { system = crossed; s_buffer = 5; r_buffer = 5 }

to_crossed : SingleRun fill (connected_single fill) crossed_single
unfolding start_send start_recv send_wires recv_wires advance at_receiver at_sender buffer_after
to_crossed = step (single_starts_recv refl) (
    step (single_starts_send refl)
      (step (acts (reaches_sender first) tt) (step (acts (reaches_receiver first) tt) stop)))

SingleRun-Finishes_example : SingleFinishes fill crossed_single
SingleRun-Finishes_example = SingleRun-Finishes fill crossed_single to_crossed refl
