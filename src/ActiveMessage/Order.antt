-- ===== src/ActiveMessage/Order.antt =====
-- The messages are received in the order in which they come in, and no assertion fails.
use mpi_comp_match.Base.{
  ℕ, ◌≡◌, refl, sym, ap, ◌∙◌, Bool, true, false, List, [], ◌∷◌, ◌++◌, Option, none, some, ◌==◌,
  length, take, append_assoc, inl, inr, Bool-cases, ==_iff, ==_self, arith,
}
use mpi_comp_match.ActiveMessage.Eager.{
  Receiver, enqueue, incoming_am_msg_handler, b_recv, must_wait, e_recv,
}
use mpi_comp_match.ActiveMessage.Queue.{
  History, Step, arrives, starts, ends, idle, Reach, start, next,
}

enqueue-append : (l : List (List ℕ)) (m : List ℕ) → enqueue l m ≡ l ++ (m ∷ [])
unfolding enqueue
enqueue-append [] m = refl
enqueue-append (x ∷ l) m = ap (◌∷◌ x) (enqueue-append l m)

take-length : (m : List ℕ) → take (length m) m ≡ m
take-length [] = refl
take-length (x ∷ m) = ap (◌∷◌ x) (take-length m)

-- What the buffer holds that has not been received yet.
abbrev pub in_buffer : Bool → Bool → List ℕ → List (List ℕ)
in_buffer true false buf = buf ∷ []
in_buffer _ _ buf = []

-- A request that is ready has no message pending and has been started.
abbrev pub Tidy : Bool → Bool → List (List ℕ) → Type 0
Tidy active true pending = (active ≡ true) × (pending ≡ [])
Tidy active false pending = Unit

pub record Ordered (size : ℕ) (h : History) : Type 0 where
  pub same_size : h.receiver.size ≡ size
  pub tidy : Tidy h.is_active h.receiver.is_ready_to_recv h.receiver.list_of_pending_msgs
  pub all :
      h.arrived
      ≡ h.received
        ++ (in_buffer h.is_active h.receiver.is_ready_to_recv h.receiver.buf
            ++ h.receiver.list_of_pending_msgs)

idle-Ordered : (size : ℕ) → Ordered size (idle size)
idle-Ordered size = record { same_size = refl; tidy = tt; all = refl }

-- What a function leaves, where its assertions hold; they fail only in this case.
abbrev pub Leaves : Type 0 → (Receiver → Type 0) → Option Receiver → Type 0
Leaves Fails P none = Fails
Leaves Fails P (some r) = P r

module _ (size : ℕ) where
  abbrev pub AfterArrival : History → List ℕ → Receiver → Type 0
  AfterArrival h msg r = Ordered size (record h { receiver = r; arrived = h.arrived ++ (msg ∷ []) })

  abbrev AfterStart : History → Receiver → Type 0
  AfterStart h r = Ordered size (record h { receiver = r; is_active = true })

  abbrev AfterEnd : History → Receiver → Type 0
  AfterEnd h r =
      Ordered size
        (record h { receiver = r; received = h.received ++ (r.buf ∷ []); is_active = false })

  module _ (own : ℕ) (arrived received : List (List ℕ)) where
    abbrev state : (buf : List ℕ) (ready active : Bool) (pending : List (List ℕ)) → History
    state buf ready active pending = record {
      receiver = record {
        size = own;
        buf = buf;
        is_ready_to_recv = ready;
        list_of_pending_msgs = pending;
      };
      arrived = arrived;
      received = received;
      is_active = active;
    }

    incoming-fits :
        (buf : List ℕ) (ready active : Bool) (pending : List (List ℕ)) (msg : List ℕ)
        → own ≡ length msg
        → Ordered size (state buf ready active pending)
        → Leaves ⊥
            (AfterArrival (state buf ready active pending) msg)
            (incoming_am_msg_handler (state buf ready active pending).receiver msg)
    unfolding incoming_am_msg_handler
    incoming-fits buf true true [] msg e h =
        simp (e, ==_self, take-length)
          (record { same_size = sym e ∙ h.same_size; tidy = tt; all = simp (h.all, append_assoc) })
    incoming-fits buf true active (x ∷ l) msg e h = absurd (ground arith)
    incoming-fits buf true false [] msg e h = absurd (ground arith)
    incoming-fits buf false active pending msg e h =
        simp (e, ==_self, take-length, enqueue-append)
          (record { same_size = sym e ∙ h.same_size; tidy = tt; all = simp (h.all, append_assoc) })

    b_recv-fits :
        (buf : List ℕ) (ready : Bool) (pending : List (List ℕ))
        → Ordered size (state buf ready false pending)
        → Leaves ⊥
            (AfterStart (state buf ready false pending))
            (b_recv (state buf ready false pending).receiver)
    unfolding b_recv
    b_recv-fits buf true pending h = absurd (ground arith)
    b_recv-fits buf false [] h = record {
      same_size = h.same_size;
      tidy = (refl, refl);
      all = h.all;
    }
    b_recv-fits buf false (x ∷ l) h = record { same_size = h.same_size; tidy = tt; all = h.all }

    e_recv-fits :
        (buf : List ℕ) (ready : Bool) (pending : List (List ℕ))
        → must_wait (state buf ready true pending).receiver ≡ false
        → Ordered size (state buf ready true pending)
        → Leaves ⊥
            (AfterEnd (state buf ready true pending))
            (e_recv (state buf ready true pending).receiver)
    unfolding e_recv must_wait
    e_recv-fits buf true [] w h = absurd (ground arith)
    e_recv-fits buf true (x ∷ l) w h = absurd (ground arith)
    e_recv-fits buf false pending w h = record {
      same_size = h.same_size;
      tidy = tt;
      all = h.all ∙ simp append_assoc refl;
    }

  -- A function that has returned leaves what it is to leave.
  left_by :
      (Fails : Type 0) (P : Receiver → Type 0) (o : Option Receiver) (r : Receiver)
      → o ≡ some r
      → Leaves Fails P o
      → P r
  left_by Fails P (some r') r e k =
      let same : r' ≡ r = ground arith in (let kept : P r = rw same at k in kept)
  left_by Fails P none r e k = absurd (ground arith)

  handler-size :
      (r r' : Receiver) (msg : List ℕ)
      → incoming_am_msg_handler r msg ≡ some r'
      → r.size ≡ length msg
  unfolding incoming_am_msg_handler
  handler-size r r' msg e = elim (Bool-cases (r.size == length msg)) [
    | inl b ↦ (==_iff _ _).0 b
    | inr b ↦ let stuck : none ≡ some r' = rw b at e in absurd (ground arith)
  ]

  -- The same record, with the value that its flag has.
  Ordered-active :
      (h : History) (b : Bool)
      → h.is_active ≡ b
      → Ordered size h
      → Ordered size (record h { is_active = b })
  Ordered-active h b e k = record {
    same_size = k.same_size;
    tidy = rw e at k.tidy;
    all = rw e at k.all;
  }

  Step-Ordered : {h h' : History} → Step h h' → Ordered size h → Ordered size h'
  Step-Ordered {h} (arrives msg r e) k =
      left_by ⊥ (AfterArrival h msg) (incoming_am_msg_handler h.receiver msg) r e (
        incoming-fits h.receiver.size h.arrived h.received h.receiver.buf
          h.receiver.is_ready_to_recv h.is_active h.receiver.list_of_pending_msgs msg
          (handler-size h.receiver r msg e) k)
  Step-Ordered {h} (starts r off e) k = left_by ⊥ (AfterStart h) (b_recv h.receiver) r e (
      b_recv-fits h.receiver.size h.arrived h.received h.receiver.buf h.receiver.is_ready_to_recv
        h.receiver.list_of_pending_msgs (Ordered-active h false off k))
  Step-Ordered {h} (ends r on done e) k = left_by ⊥ (AfterEnd h) (e_recv h.receiver) r e (
      e_recv-fits h.receiver.size h.arrived h.received h.receiver.buf h.receiver.is_ready_to_recv
        h.receiver.list_of_pending_msgs done (Ordered-active h true on k))

  -- In every reachable state of a receive request whose messages are delivered eagerly, and which no
  -- other request's wait progresses, the messages that have come in are, in this order: those
  -- received, the one that lies in the buffer of a started operation, and the pending ones. None is
  -- lost, doubled or overtaken, and a request that is ready has been started and has none pending.
  pub Reach-Ordered : (h : History) → Reach size h → Ordered size h
  Reach-Ordered h start = idle-Ordered size
  Reach-Ordered h (next {h = before} r s) = Step-Ordered s (Reach-Ordered before r)

  -- In every reachable state the handler's assertions hold for a message of the right size.
  Reach-handles :
      (h : History) (msg : List ℕ)
      → Reach size h
      → size ≡ length msg
      → Leaves ⊥ (AfterArrival h msg) (incoming_am_msg_handler h.receiver msg)
  Reach-handles h msg r e =
      incoming-fits h.receiver.size h.arrived h.received h.receiver.buf h.receiver.is_ready_to_recv
        h.is_active h.receiver.list_of_pending_msgs msg ((Reach-Ordered h r).same_size ∙ e)
        (Reach-Ordered h r)
