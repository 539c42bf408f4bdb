-- ===== src/ActiveMessage/Eager.antt =====
-- `incoming_am_msg_handler`, `b_recv` and `e_recv` under USE_EAGER, with the list of pending messages.
-- A failing assertion is `none`.
use mpi_comp_match.Base.{
  ℕ, Bool, true, false, List, [], ◌∷◌, Option, none, some, ◌==◌, if◌then◌else◌, length, take,
}

-- The fields of a receive request that the queue needs.
pub record Receiver : Type 0 where
  pub size : ℕ
  pub buf : List ℕ
  pub is_ready_to_recv : Bool
  pub list_of_pending_msgs : List (List ℕ)

abbrev is_null : List (List ℕ) → Bool
is_null [] = true
is_null (_ ∷ _) = false

-- The walk to the end of the list, to keep the order.
unfoldable pub enqueue : List (List ℕ) → List ℕ → List (List ℕ)
enqueue [] new_elem = new_elem ∷ []
enqueue (cur_elem ∷ nxt_elem) new_elem = cur_elem ∷ enqueue nxt_elem new_elem

unfoldable pub add_to_list_of_incoming_msg : Receiver → List ℕ → Receiver
unfolding enqueue
add_to_list_of_incoming_msg r msg = record r {
  list_of_pending_msgs = enqueue r.list_of_pending_msgs (take r.size msg);
}

unfoldable pub dequeue_from_list_of_incoming_msg : Receiver → Option Receiver
dequeue_from_list_of_incoming_msg r = elim r.list_of_pending_msgs [
  | [] ↦ none
  | cur_elem ∷ nxt_elem ↦ some (record r { list_of_pending_msgs = nxt_elem; buf = cur_elem })
]

-- The handler, for a message that is delivered eagerly.
unfoldable pub incoming_am_msg_handler : Receiver → List ℕ → Option Receiver
unfolding add_to_list_of_incoming_msg
incoming_am_msg_handler r msg =
    if r.size == length msg
    then if r.is_ready_to_recv
      then if is_null r.list_of_pending_msgs
        then some (record r { is_ready_to_recv = false; buf = take r.size msg })
        else none
      else some (add_to_list_of_incoming_msg r msg)
    else none

-- `b_recv` behind its progress of the worker, in which the handler may run any number of times.
unfoldable pub b_recv : Receiver → Option Receiver
unfolding dequeue_from_list_of_incoming_msg
b_recv r =
    if is_null r.list_of_pending_msgs
    then some (record r { is_ready_to_recv = true })
    else dequeue_from_list_of_incoming_msg r

-- `e_recv` waits as long as this holds, with the handler running in between.
unfoldable pub must_wait : Receiver → Bool
must_wait r = if r.is_ready_to_recv then is_null r.list_of_pending_msgs else false

-- `e_recv` behind its loop.
unfoldable pub e_recv : Receiver → Option Receiver
unfolding dequeue_from_list_of_incoming_msg
e_recv r =
    if r.is_ready_to_recv
    then dequeue_from_list_of_incoming_msg (record r { is_ready_to_recv = false })
    else some r

abbrev pub and_then : Option Receiver → (Receiver → Option Receiver) → Option Receiver
and_then none f = none
and_then (some r) f = f r

-- `ucp_worker_progress`, in which the library runs the handler for these messages.
unfoldable pub progressed : List (List ℕ) → Receiver → Option Receiver
progressed [] r = some r
progressed (msg ∷ rest) r = and_then (incoming_am_msg_handler r msg) (progressed rest)

-- The progress of this request while another one is waited for: the test, and the whole `b_recv`.
unfoldable pub progress_recv_request : List (List ℕ) → Receiver → Option Receiver
unfolding progressed b_recv
progress_recv_request msgs r =
    if r.is_ready_to_recv then and_then (progressed msgs r) b_recv else some r
