-- ===== src/Pass/Arguments.antt =====
-- The arguments of a call that a conflict depends on, in conflict_detection.cpp: the communicator,
-- the rank of the partner, and the tag.
use mpi_comp_match.Base.{ℕ, Bool, ◌||◌, not, none, ◌==◌, if◌then◌else◌}
use mpi_comp_match.Pass.Checked.{Checked, ◌>>◌, assert, pure}
use mpi_comp_match.Pass.Llvm.{Llvm}
use mpi_comp_match.Pass.Functions.{MpiFunctions}

-- How the three functions tell the callees apart.
pub data CallKind : Type 0 where
  blocking_send : CallKind
  nonblocking_send : CallKind
  receive : CallKind
  send_receive : CallKind
  unsupported : CallKind

module _ (ir : Llvm) (mpi : MpiFunctions) where
  unfoldable pub kind_of : ℕ → CallKind
  kind_of call =
      let f = ir.get_called_function call in
      if f == mpi.mpi_send || f == mpi.mpi_bsend || f == mpi.mpi_ssend || f == mpi.mpi_rsend
      then blocking_send
      else (if f == mpi.mpi_isend
          then nonblocking_send
          else (if f == mpi.mpi_recv || f == mpi.mpi_irecv
              then receive
              else (if f == mpi.mpi_sendrecv then send_receive else unsupported)))

  -- The operand at this place of a call with so many operands.
  abbrev operand : (call total_num_args arg_pos : ℕ) → Checked ℕ
  operand call total_num_args arg_pos = do
    assert (ir.get_num_arg_operands call == total_num_args)
    pure (ir.get_arg_operand call arg_pos)

  abbrev communicator_as : CallKind → ℕ → Checked ℕ
  communicator_as blocking_send call = operand call 6 5
  communicator_as nonblocking_send call = operand call 7 5
  communicator_as receive call = operand call 7 5
  communicator_as send_receive call = operand call 12 10
  communicator_as unsupported call = none

  unfoldable pub get_communicator : ℕ → Checked ℕ
  get_communicator call = communicator_as (kind_of call) call

  abbrev src_as : CallKind → ℕ → Bool → Checked ℕ
  src_as blocking_send call is_send = do assert is_send; operand call 6 3
  src_as nonblocking_send call is_send = do assert is_send; operand call 7 3
  src_as receive call is_send = do assert (not is_send); operand call 7 3
  src_as send_receive call is_send = operand call 12 (if is_send then 3 else 8)
  src_as unsupported call is_send = none

  unfoldable pub get_src : ℕ → Bool → Checked ℕ
  get_src call is_send = src_as (kind_of call) call is_send

  abbrev tag_as : CallKind → ℕ → Bool → Checked ℕ
  tag_as blocking_send call is_send = do assert is_send; operand call 6 4
  tag_as nonblocking_send call is_send = do assert is_send; operand call 7 4
  tag_as receive call is_send = do assert (not is_send); operand call 7 4
  tag_as send_receive call is_send = operand call 12 (if is_send then 4 else 9)
  tag_as unsupported call is_send = none

  unfoldable pub get_tag : ℕ → Bool → Checked ℕ
  get_tag call is_send = tag_as (kind_of call) call is_send
