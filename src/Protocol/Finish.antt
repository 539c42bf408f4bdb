-- ===== src/Protocol/Finish.antt =====
-- By the steps of System no reachable state is a trap: where both sides have started the same
-- operation, they can end it.
use mpi_comp_match.Base.{ℕ, ◌+◌, ◌≡◌, ◌∙◌, ◌⊎◌, inl, inr, refl, false, List, ◌∷◌, arith}
use mpi_comp_match.Protocol.System.{
  Wire, System, Pc, inactive, started, waiting, completing, Step, starts_send, starts_recv,
  progresses, ends_send, enters_wait, resolves, ends_recv, ends_fetch, reaches_receiver,
  reaches_sender, Takes, first, at_receiver, at_sender, resolve_crosstalk, recv_wires, advance,
  Reach,
}
use mpi_comp_match.Protocol.Invariant.Defs.{
  busy, resting, offering, offered, Push, push_all, push_fence, push_flag, Fetch, offer_all,
  offer_fence, fetch_all, fetch_fence, fetch_flag, Between, Pushing, Fetching, Inv, between,
  pushing, fetching,
}
use mpi_comp_match.Protocol.Safety.{Reach-Inv}

module _ (message : ℕ → ℕ) where
  -- No step of another request's wait.
  abbrev pub IsOwn : {s t : System} → Step message s t → Type 0
  IsOwn (starts_send e) = Unit
  IsOwn (ends_send e out f) = Unit
  IsOwn (starts_recv e) = Unit
  IsOwn (progresses pc) = ⊥
  IsOwn (enters_wait e out) = Unit
  IsOwn (resolves e f) = Unit
  IsOwn (ends_recv e f) = Unit
  IsOwn (ends_fetch e out) = Unit
  IsOwn (reaches_receiver t) = Unit
  IsOwn (reaches_sender t) = Unit

  -- A finite run without such steps, and one that ends with both sides between two operations.
  pub data Run : System → System → Type 0 where
    stop : {s : System} → Run s s
    step : {s t u : System} (act : Step message s t) → IsOwn act → Run t u → Run s u

  pub record Finishes (s : System) : Type 0 where
    pub final : System
    pub run : Run s final
    pub sender : final.s_active ≡ false
    pub receiver : final.r_pc ≡ inactive
    pub s_op : final.s_op ≡ s.s_op
    pub r_op : final.r_op ≡ s.r_op

  before :
      {s t : System} (act : Step message s t)
      → IsOwn act
      → t.s_op ≡ s.s_op
      → t.r_op ≡ s.r_op
      → Finishes t
      → Finishes s
  before act own es er h = record {
    final = h.final;
    run = step act own h.run;
    sender = h.sender;
    receiver = h.receiver;
    s_op = h.s_op ∙ es;
    r_op = h.r_op ∙ er;
  }

  from_head : {l q : List Wire} {w : Wire} → l ≡ w ∷ q → Takes l w q
  from_head e = rw e first

  Pc-cases : (pc : Pc) → (pc ≡ inactive) ⊎ (pc ≡ started) ⊎ (pc ≡ waiting) ⊎ (pc ≡ completing)
  Pc-cases inactive = inl refl
  Pc-cases started = inr (inl refl)
  Pc-cases waiting = inr (inr (inl refl))
  Pc-cases completing = inr (inr (inr refl))

  finish-resting : (k : ℕ) (s : System) → Between message k resting resting s → Finishes s
  finish-resting k s h = record {
    final = s;
    run = stop;
    sender = h.sender.1;
    receiver = h.receiver.1;
    s_op = refl;
    r_op = refl;
  }

  finish-receiver : (k : ℕ) (s : System) → Between message k resting busy s → Finishes s
  finish-receiver k s h = elim (Pc-cases s.r_pc) [
    | inl e ↦ absurd (h.receiver.1 e)
    | inr (inl e) ↦
        before (enters_wait e h.receiver.2) tt refl refl
          (before (ends_recv refl (ground arith)) tt refl refl (finish-resting k _ (ground arith)))
    | inr (inr (inl e)) ↦
        before (ends_recv e (ground arith)) tt refl refl (finish-resting k _ (ground arith))
    | inr (inr (inr e)) ↦
        before (ends_fetch e h.receiver.2) tt refl refl (finish-resting k _ (ground arith))
  ]

  finish-both : (k : ℕ) (s : System) → Between message k busy busy s → Finishes s
  finish-both k s h =
      before (ends_send h.sender.1 h.sender.2 (ground arith)) tt refl refl
        (finish-receiver k _ (ground arith))

  finish-sender : (k : ℕ) (s : System) → Between message k busy resting s → Finishes s
  finish-sender k s h =
      before (ends_send h.sender.1 h.sender.2 (ground arith)) tt refl refl
        (finish-resting k _ (ground arith))

  finish-push_flag : (k : ℕ) (s : System) → Pushing message k push_flag s → Finishes s
  unfolding at_receiver
  finish-push_flag k s h =
      before (reaches_receiver (from_head h.s_out)) tt refl refl
        (finish-both (k + 1) _ (ground arith))

  finish-push_fence : (k : ℕ) (s : System) → Pushing message k push_fence s → Finishes s
  unfolding at_receiver
  finish-push_fence k s h =
      before (reaches_receiver (from_head h.s_out)) tt refl refl
        (finish-push_flag k _ (ground arith))

  finish-push : (k : ℕ) (i : Push) (s : System) → Pushing message k i s → Finishes s
  unfolding at_receiver
  finish-push k push_all s h =
      before (reaches_receiver (from_head h.s_out)) tt refl refl
        (finish-push_fence k _ (ground arith))
  finish-push k push_fence s h = finish-push_fence k s h
  finish-push k push_flag s h = finish-push_flag k s h

  finish-fetch_flag : (k : ℕ) (s : System) → Fetching message k fetch_flag s → Finishes s
  unfolding at_sender
  finish-fetch_flag k s h =
      before (reaches_sender (from_head h.r_out)) tt refl refl
        (finish-both (k + 1) _ (ground arith))

  finish-fetch_fence : (k : ℕ) (s : System) → Fetching message k fetch_fence s → Finishes s
  unfolding at_sender
  finish-fetch_fence k s h =
      before (reaches_sender (from_head h.r_out)) tt refl refl
        (finish-fetch_flag k _ (ground arith))

  finish-fetch_all : (k : ℕ) (s : System) → Fetching message k fetch_all s → Finishes s
  unfolding at_sender
  finish-fetch_all k s h =
      before (reaches_sender (from_head h.r_out)) tt refl refl
        (finish-fetch_fence k _ (ground arith))

  finish-fetch : (k : ℕ) (j : Fetch) (s : System) → Fetching message k j s → Finishes s
  unfolding at_sender
  finish-fetch k offer_all s h =
      before (reaches_sender (from_head h.r_out)) tt refl refl (finish-fetch_all k _ (ground arith))
  finish-fetch k offer_fence s h =
      before (reaches_sender (from_head h.r_out)) tt refl refl
        (finish-fetch_fence k _ (ground arith))
  finish-fetch k fetch_all s h = finish-fetch_all k s h
  finish-fetch k fetch_fence s h = finish-fetch_fence k s h
  finish-fetch k fetch_flag s h = finish-fetch_flag k s h

  -- Both have found the other not ready: the receiver notices in its loop and fetches.
  finish-waiting :
      (k : ℕ) (s : System) → s.r_pc ≡ waiting → Between message k offered offered s → Finishes s
  unfolding resolve_crosstalk recv_wires advance
  finish-waiting k s e h =
      before (resolves e (ground arith)) tt refl refl (finish-fetch_all k _ (ground arith))

  finish-offered : (k : ℕ) (s : System) → Between message k offered offered s → Finishes s
  finish-offered k s h = elim h.receiver.1 [
    | inl e ↦
        before (enters_wait e h.receiver.2) tt refl refl (finish-waiting k _ refl (ground arith))
    | inr e ↦ finish-waiting k s e h
  ]

  finish-offers_sender : (k : ℕ) (s : System) → Between message k offering offered s → Finishes s
  unfolding at_receiver
  finish-offers_sender k s h =
      before (reaches_receiver (from_head h.sender.2)) tt refl refl
        (finish-offered k _ (ground arith))

  finish-offers_receiver : (k : ℕ) (s : System) → Between message k offered offering s → Finishes s
  unfolding at_sender
  finish-offers_receiver k s h =
      before (reaches_sender (from_head h.receiver.2)) tt refl refl
        (finish-offered k _ (ground arith))

  finish-offers : (k : ℕ) (s : System) → Between message k offering offering s → Finishes s
  unfolding at_receiver
  finish-offers k s h =
      before (reaches_receiver (from_head h.sender.2)) tt refl refl
        (finish-offers_receiver k _ (ground arith))

  Inv-Finishes : (s : System) → s.s_op ≡ s.r_op → Inv message s → Finishes s
  Inv-Finishes s e (between k busy busy h) = finish-both k s h
  Inv-Finishes s e (between k busy resting h) = finish-sender k s h
  Inv-Finishes s e (between k resting busy h) = finish-receiver k s h
  Inv-Finishes s e (between k resting resting h) = finish-resting k s h
  Inv-Finishes s e (between k offering offering h) = finish-offers k s h
  Inv-Finishes s e (between k offering offered h) = finish-offers_sender k s h
  Inv-Finishes s e (between k offered offering h) = finish-offers_receiver k s h
  Inv-Finishes s e (between k offered offered h) = finish-offered k s h
  Inv-Finishes s e (between k busy offering h) = absurd (ground arith)
  Inv-Finishes s e (between k busy offered h) = absurd (ground arith)
  Inv-Finishes s e (between k resting offering h) = absurd (ground arith)
  Inv-Finishes s e (between k resting offered h) = absurd (ground arith)
  Inv-Finishes s e (between k offering busy h) = absurd (ground arith)
  Inv-Finishes s e (between k offering resting h) = absurd (ground arith)
  Inv-Finishes s e (between k offered busy h) = absurd (ground arith)
  Inv-Finishes s e (between k offered resting h) = absurd (ground arith)
  Inv-Finishes s e (pushing k i h) = finish-push k i s h
  Inv-Finishes s e (fetching k j h) = finish-fetch k j s h

  -- By the steps of System: from every reachable state in which both sides are in the same operation, or have ended it, some
  -- run without a start of another operation leads to a state in which both have ended it: no order
  -- of steps that has come before leads to a deadlock, crosstalk included.
  pub Reach-Finishes : (s : System) → Reach message s → s.s_op ≡ s.r_op → Finishes s
  Reach-Finishes s r e = Inv-Finishes s e (Reach-Inv message r)
