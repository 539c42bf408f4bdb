-- ===== src/ActiveMessage/Pair.antt =====
-- A sender and a receiver of the variant over active messages, from the creation of their requests
-- on: the exchange of the AM_ID, ordinary messages, and active messages by rendezvous. The
-- assertions, by which a step may end the program, are left out.
pub mod Agreement
pub mod Invariant
pub mod Split
use mpi_comp_match.Base.{
  ℕ, zero, suc, ◌+◌, ◌-◌, ◌≤◌, ◌<◌, ◌≡◌, ◌≢◌, ◌⊎◌, Bool, true, false, if◌then◌else◌,
}

-- The type of a request.
pub data Mode : Type 0 where
  searching connected fallback : Mode

-- The message with the AM_ID: the MPI_Irecv of the sender is complete, and so is the MPI_Issend of
-- the receiver.
pub data Exchange : Type 0 where
  posted delivered acknowledged : Exchange

-- The active message of the current operation: not sent, or its receipt done and known to the sender;
-- sent; kept in list_of_pending_msgs; being received; received.
pub data Transfer : Type 0 where
  idle on_its_way deferred receiving received_all : Transfer

pub record Pair : Type 0 where
  pub exchange : Exchange
  pub s_mode : Mode
  pub s_op : ℕ
  pub s_active : Bool
  pub r_mode : Mode
  pub r_op : ℕ
  pub r_active : Bool
  -- is_ready_to_recv, and whether ucx_request_data_transfer is not null
  pub r_ready : Bool
  pub r_transfer : Bool
  -- whether an ordinary receive is posted
  pub r_posted : Bool
  -- the ordinary messages that are not received
  pub ordinary : ℕ
  pub active_message : Transfer
  -- how many messages have been received
  pub received : ℕ

-- b_send, or MPI_Issend or MPI_Isend of the payload.
unfoldable pub start_send_as : Mode → Pair → Pair
start_send_as connected s = record s {
  s_op = s.s_op + 1;
  s_active = true;
  active_message = on_its_way;
}
start_send_as _ s = record s { s_op = s.s_op + 1; s_active = true; ordinary = s.ordinary + 1 }

-- What MPI_Test of the exchange answers.
abbrev pub sender_tests : Exchange → Mode
sender_tests posted = fallback
sender_tests _ = connected

abbrev pub receiver_tests : Exchange → Mode
receiver_tests acknowledged = connected
receiver_tests _ = fallback

-- Behind the wait for the payload, which stays in the first case to be received.
unfoldable pub end_send_as : Mode → Pair → Pair
end_send_as searching s = record s { s_active = false; s_mode = sender_tests s.exchange }
end_send_as connected s = record s { s_active = false; active_message = idle }
end_send_as fallback s = record s { s_active = false }

-- When the wait of the sender returns: MPI_Issend with its receive posted or done, MPI_Isend at any time, and
-- e_send with its transfer complete.
abbrev pub CanEndSend : Mode → Pair → Type 0
CanEndSend searching s = (s.r_posted ≡ true) ⊎ (s.ordinary ≡ 0)
CanEndSend connected s = s.active_message ≡ received_all
CanEndSend fallback s = Unit

-- b_recv, by the pending message; or MPI_Irecv.
unfoldable pub b_recv_as : Transfer → Pair → Pair
b_recv_as deferred s = record s { active_message = receiving; r_transfer = true }
b_recv_as _ s = record s { r_ready = true }

unfoldable pub start_recv_as : Mode → Pair → Pair
unfolding b_recv_as
start_recv_as connected s =
    b_recv_as s.active_message (record s { r_op = s.r_op + 1; r_active = true })
start_recv_as _ s = record s { r_op = s.r_op + 1; r_active = true; r_posted = true }

unfoldable pub end_recv_as : Mode → Pair → Pair
end_recv_as searching s = record s {
  r_active = false;
  r_posted = false;
  ordinary = s.ordinary - 1;
  received = s.received + 1;
  r_mode = receiver_tests s.exchange;
}
end_recv_as connected s = record s { r_active = false; r_transfer = false }
end_recv_as fallback s = record s {
  r_active = false;
  r_posted = false;
  ordinary = s.ordinary - 1;
  received = s.received + 1;
}

-- When the wait of the receiver returns: MPI_Wait with its receive posted and a message for it, and e_recv unless a transfer that
-- has been started is under way.
abbrev pub CanEndRecv : Mode → Pair → Type 0
CanEndRecv connected s = s.r_transfer ≡ true → s.active_message ≢ receiving
CanEndRecv _ s = (s.r_posted ≡ true) × (0 < s.ordinary)

-- incoming_am_msg_handler
unfoldable pub arrive_as : (r_ready : Bool) → Pair → Pair
arrive_as true s = record s { active_message = receiving; r_ready = false; r_transfer = true }
arrive_as false s = record s { active_message = deferred }

pub data Step (s : Pair) : Pair → Type 0 where
  delivers : s.exchange ≡ posted → Step s (record s { exchange = delivered })
  acknowledges : s.exchange ≡ delivered → Step s (record s { exchange = acknowledged })
  starts_send : s.s_active ≡ false → Step s (start_send_as s.s_mode s)
  ends_send : s.s_active ≡ true → CanEndSend s.s_mode s → Step s (end_send_as s.s_mode s)
  starts_recv : s.r_active ≡ false → Step s (start_recv_as s.r_mode s)
  ends_recv : s.r_active ≡ true → CanEndRecv s.r_mode s → Step s (end_recv_as s.r_mode s)
  arrives : s.active_message ≡ on_its_way → Step s (arrive_as s.r_ready s)
  completes :
      s.active_message ≡ receiving
      → Step s (record s { active_message = received_all; received = s.received + 1 })

-- Both requests have been created.
abbrev pub created : Pair
created = record {
  exchange = posted;
  s_mode = searching;
  s_op = 0;
  s_active = false;
  r_mode = searching;
  r_op = 0;
  r_active = false;
  r_ready = false;
  r_transfer = false;
  r_posted = false;
  ordinary = 0;
  active_message = idle;
  received = 0;
}

pub data Run : Pair → Pair → Type 0 where
  stop : {s : Pair} → Run s s
  step : {s t u : Pair} → Step s t → Run t u → Run s u
