-- ===== src/Protocol/System.antt =====
-- The states and steps of a connected pair: `b_send`, `e_send`, `b_recv`, `e_recv` and
-- `progress_recv_request`, interleaved with the operations of the network in any order that the
-- fences allow. A put of the flag carries the value of `flag_buffer` at the call; a put or get of
-- the data copies what the sender's buffer holds when it is carried out. The reads of `flag_buffer`
-- behind the call are left to Single, and a nested progress of a request that e_recv waits for to
-- Nested.
use mpi_comp_match.Base.{
  ℕ, ◌+◌, ◌*◌, ◌≤◌, ◌<◌, ◌≡◌, ◌≢◌, ◌⊎◌, Bool, true, false, List, [], ◌∷◌, ◌++◌, ◌==◌, if◌then◌else◌,
}

-- An operation in the outbox of the process that has issued it.
pub data Wire : Type 0 where
  put_flag : ℕ → Wire
  put_data : Wire
  get_data : Wire
  fence : Wire

-- Where the receiving process stands: between two operations, in one and not in MPIOPT_Wait, in
-- the loops of `e_recv`, or in its wait for the data that it fetches itself.
pub data Pc : Type 0 where
  inactive started waiting completing : Pc

pub record System : Type 0 where
  pub s_op : ℕ
  pub s_flag : ℕ
  pub s_buf : ℕ
  pub s_out : List Wire
  pub s_active : Bool
  pub r_op : ℕ
  pub r_flag : ℕ
  pub r_buf : ℕ
  pub r_out : List Wire
  pub r_pc : Pc
  -- how often the data has been copied by RDMA
  pub copies : ℕ

-- What `b_send` issues in operation n, with the flag that it finds.
unfoldable pub send_wires : ℕ → ℕ → List Wire
send_wires n flag =
    if flag == n * 2 + 1
    then put_data ∷ fence ∷ put_flag (n * 2 + 2) ∷ []
    else put_flag (n * 2 + 1) ∷ []

-- What `b_recv` and `progress_recv_request` issue to fetch the data.
abbrev pub fetch_wires : ℕ → List Wire
fetch_wires n = get_data ∷ fence ∷ put_flag (n * 2 + 2) ∷ []

unfoldable pub recv_wires : ℕ → ℕ → List Wire
recv_wires n flag = if flag == n * 2 + 1 then fetch_wires n else put_flag (n * 2 + 1) ∷ []

unfoldable pub progress_wires : ℕ → ℕ → List Wire
progress_wires n flag = if flag == n * 2 + 1 then fetch_wires n else []

-- `flag++` where the flag says that the other side has started.
unfoldable pub advance : ℕ → ℕ → ℕ
advance n flag = if flag == n * 2 + 1 then flag + 1 else flag

-- The application fills the buffer with the message of the next operation and starts it.
unfoldable pub start_send : (ℕ → ℕ) → System → System
start_send message s = record s {
  s_op = s.s_op + 1;
  s_buf = message (s.s_op + 1);
  s_flag = advance (s.s_op + 1) s.s_flag;
  s_out = s.s_out ++ send_wires (s.s_op + 1) s.s_flag;
  s_active = true;
}

unfoldable pub start_recv : System → System
start_recv s = record s {
  r_op = s.r_op + 1;
  r_flag = advance (s.r_op + 1) s.r_flag;
  r_out = s.r_out ++ recv_wires (s.r_op + 1) s.r_flag;
  r_pc = started;
}

unfoldable pub progress_recv : System → System
progress_recv s = record s {
  r_flag = advance s.r_op s.r_flag;
  r_out = s.r_out ++ progress_wires s.r_op s.r_flag;
}

-- The crosstalk branch of `e_recv`.
unfoldable pub resolve_crosstalk : System → System
resolve_crosstalk s = record s {
  r_flag = advance s.r_op s.r_flag;
  r_out = s.r_out ++ recv_wires s.r_op s.r_flag;
  r_pc = completing;
}

-- An operation of the sender is carried out at the receiver.
unfoldable pub at_receiver : Wire → System → System
at_receiver (put_flag v) s = record s { r_flag = v }
at_receiver put_data s = record s { r_buf = s.s_buf; copies = s.copies + 1 }
at_receiver get_data s = record s { s_buf = s.r_buf }
at_receiver fence s = s

-- An operation of the receiver is carried out at the sender.
unfoldable pub at_sender : Wire → System → System
at_sender (put_flag v) s = record s { s_flag = v }
at_sender put_data s = record s { s_buf = s.r_buf }
at_sender get_data s = record s { r_buf = s.s_buf; copies = s.copies + 1 }
at_sender fence s = s

-- An operation may overtake others that no fence separates from it.
pub data Takes : List Wire → Wire → List Wire → Type 0 where
  first : {w : Wire} {q : List Wire} → Takes (w ∷ q) w q
  later :
      {v w : Wire} {q q' : List Wire}
      → v ≢ fence
      → w ≢ fence
      → Takes q w q'
      → Takes (v ∷ q) w (v ∷ q')

pub data Step (message : ℕ → ℕ) (s : System) : System → Type 0 where
  starts_send : s.s_active ≡ false → Step message s (start_send message s)
  -- the end of `e_send`: both flushes are complete, and the flag is that of a finished operation
  ends_send :
      s.s_active ≡ true
      → s.s_out ≡ []
      → s.s_op * 2 + 2 ≤ s.s_flag
      → Step message s (record s { s_active = false })
  starts_recv : s.r_pc ≡ inactive → Step message s (start_recv s)
  -- while another request of the receiver is waited for
  progresses : (s.r_pc ≡ inactive) ⊎ (s.r_pc ≡ started) → Step message s (progress_recv s)
  -- `e_recv` has waited for both flushes
  enters_wait : s.r_pc ≡ started → s.r_out ≡ [] → Step message s (record s { r_pc = waiting })
  resolves : s.r_pc ≡ waiting → s.r_flag ≡ s.r_op * 2 + 1 → Step message s (resolve_crosstalk s)
  -- `e_recv` leaves its loops and finds the operation finished
  ends_recv :
      s.r_pc ≡ waiting → s.r_op * 2 + 1 < s.r_flag → Step message s (record s { r_pc = inactive })
  -- the flush of the crosstalk branch is complete
  ends_fetch : s.r_pc ≡ completing → s.r_out ≡ [] → Step message s (record s { r_pc = inactive })
  reaches_receiver :
      {w : Wire} {q : List Wire}
      → Takes s.s_out w q
      → Step message s (at_receiver w (record s { s_out = q }))
  reaches_sender :
      {w : Wire} {q : List Wire}
      → Takes s.r_out w q
      → Step message s (at_sender w (record s { r_out = q }))

-- Both requests are connected by their first operation, whose message went by ordinary MPI; no flag
-- has been written yet.
abbrev pub connected : (ℕ → ℕ) → System
connected message = record {
  s_op = 1;
  s_flag = 0;
  s_buf = message 1;
  s_out = [];
  s_active = false;
  r_op = 1;
  r_flag = 0;
  r_buf = message 1;
  r_out = [];
  r_pc = inactive;
  copies = 0;
}

pub data Reach (message : ℕ → ℕ) : System → Type 0 where
  start : Reach message (connected message)
  next : {s t : System} → Reach message s → Step message s t → Reach message t
