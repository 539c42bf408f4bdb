-- ===== src/ActiveMessage/Queue.antt =====
-- The steps of a receive request: its operations, and the messages that come in between them.
use mpi_comp_match.Base.{ℕ, ◌≡◌, Bool, true, false, List, [], ◌∷◌, ◌++◌, some}
use mpi_comp_match.ActiveMessage.Eager.{
  Receiver, incoming_am_msg_handler, b_recv, must_wait, e_recv,
}

-- With the messages in the order in which they came in, those received, and whether the request is
-- between its start and its wait.
pub record History : Type 0 where
  pub receiver : Receiver
  pub arrived : List (List ℕ)
  pub received : List (List ℕ)
  pub is_active : Bool

pub data Step (h : History) : History → Type 0 where
  arrives :
      (msg : List ℕ) (r : Receiver)
      → incoming_am_msg_handler h.receiver msg ≡ some r
      → Step h (record h { receiver = r; arrived = h.arrived ++ (msg ∷ []) })
  starts :
      (r : Receiver)
      → h.is_active ≡ false
      → b_recv h.receiver ≡ some r
      → Step h (record h { receiver = r; is_active = true })
  -- the end of `e_recv`
  ends :
      (r : Receiver)
      → h.is_active ≡ true
      → must_wait h.receiver ≡ false
      → e_recv h.receiver ≡ some r
      → Step h (record h { receiver = r; received = h.received ++ (r.buf ∷ []); is_active = false })

-- A request of this size whose connection has just been found.
abbrev pub idle : ℕ → History
idle size = record {
  receiver = record { size = size; buf = []; is_ready_to_recv = false; list_of_pending_msgs = [] };
  arrived = [];
  received = [];
  is_active = false;
}

pub data Reach (size : ℕ) : History → Type 0 where
  start : Reach size (idle size)
  next : {h h' : History} → Reach size h → Step h h' → Reach size h'
