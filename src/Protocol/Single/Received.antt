-- ===== src/Protocol/Single/Received.antt =====
-- The reads of `flag_buffer` find the value at the call, so the steps are those of System.
use mpi_comp_match.Base.{
  ℕ, ◌+◌, ◌*◌, ◌≡◌, refl, ap, sym, Bool, false, List, [], ◌∷◌, ◌++◌, ◌==◌, inl, inr, Bool-cases,
  arith,
}
use mpi_comp_match.Protocol.System.{
  Wire, put_flag, put_data, get_data, fence, System, Pc, inactive, started, waiting, completing,
  Step, starts_send, ends_send, starts_recv, progresses, enters_wait, resolves, ends_recv,
  ends_fetch, reaches_receiver, reaches_sender, send_wires, recv_wires, start_send, start_recv,
  resolve_crosstalk, at_receiver, at_sender, Takes, first, later, Reach, start, next,
}
use mpi_comp_match.Protocol.Safety.{Reach-received, Reach-sent}
use mpi_comp_match.Protocol.Single.{
  Single, buffer_after, Reads, here, behind, IsSilent, SingleStep, single_starts_send,
  single_starts_recv, single_resolves, acts, reads_sender, reads_receiver, connected_single,
  SingleRun, stop, step,
}

-- Each put of the flag carries this value.
abbrev pub Carries : ℕ → List Wire → Type 0
Carries b [] = Unit
Carries b (put_flag v ∷ rest) = (v ≡ b) × Carries b rest
Carries b (_ ∷ rest) = Carries b rest

Reads-same : {b : ℕ} {q q' : List Wire} → Reads b q q' → Carries b q → q' ≡ q
Reads-same (here {q = q}) (e, h) = ap (λ v. put_flag v ∷ q) (sym e)
Reads-same (behind {w = put_flag v} r) (e, h) = ap (λ l. put_flag v ∷ l) (Reads-same r h)
Reads-same (behind {w = put_data} r) h = ap (λ l. put_data ∷ l) (Reads-same r h)
Reads-same (behind {w = get_data} r) h = ap (λ l. get_data ∷ l) (Reads-same r h)
Reads-same (behind {w = fence} r) h = ap (λ l. fence ∷ l) (Reads-same r h)

Carries-tail : (b : ℕ) (w : Wire) (q : List Wire) → Carries b (w ∷ q) → Carries b q
Carries-tail b (put_flag v) q (e, h) = h
Carries-tail b put_data q h = h
Carries-tail b get_data q h = h
Carries-tail b fence q h = h

Takes-Carries : (b : ℕ) {q q' : List Wire} {w : Wire} → Takes q w q' → Carries b q → Carries b q'
Takes-Carries b (first {w = w} {q = q}) h = Carries-tail b w q h
Takes-Carries b (later {v = put_flag v} a c t) (e, h) = (e, Takes-Carries b t h)
Takes-Carries b (later {v = put_data} a c t) h = Takes-Carries b t h
Takes-Carries b (later {v = get_data} a c t) h = Takes-Carries b t h
Takes-Carries b (later {v = fence} a c t) h = Takes-Carries b t h

no_takes : {l q : List Wire} {w : Wire} → l ≡ [] → Takes l w q → ⊥
no_takes e first = absurd (ground (arith, e))
no_takes e (later a c t) = absurd (ground (arith, e))

module _ (n flag b : ℕ) where
  pub send_wires-Carries : Carries (buffer_after (send_wires n flag) b) (send_wires n flag)
  unfolding send_wires buffer_after
  send_wires-Carries = elim (Bool-cases (flag == n * 2 + 1)) [
    | inl e ↦ rw e (refl, tt)
    | inr e ↦ rw e (refl, tt)
  ]

  pub recv_wires-Carries : Carries (buffer_after (recv_wires n flag) b) (recv_wires n flag)
  unfolding recv_wires buffer_after
  recv_wires-Carries = elim (Bool-cases (flag == n * 2 + 1)) [
    | inl e ↦ rw e (refl, tt)
    | inr e ↦ rw e (refl, tt)
  ]

-- Every put carries what `flag_buffer` holds, and a side that may assign it has no operation under
-- way.
pub record Quiet (s_buffer r_buffer : ℕ) (s_out r_out : List Wire) (s_active : Bool) (r_pc : Pc)
    : Type 0 where
  pub s_carries : Carries s_buffer s_out
  pub r_carries : Carries r_buffer r_out
  pub s_flushed : s_active ≡ false → s_out ≡ []
  pub r_flushed : r_pc ≡ inactive → r_out ≡ []
  pub r_waits : r_pc ≡ waiting → r_out ≡ []

abbrev pub IsQuiet : (s_buffer r_buffer : ℕ) → System → Type 0
IsQuiet s_buffer r_buffer s = Quiet s_buffer r_buffer s.s_out s.r_out s.s_active s.r_pc

abbrev pub Steady : (ℕ → ℕ) → Single → Type 0
Steady message l = Reach message l.system × IsQuiet l.s_buffer l.r_buffer l.system

module _ (b c : ℕ) where
  at_receiver-IsQuiet : (w : Wire) (s : System) → IsQuiet b c s → IsQuiet b c (at_receiver w s)
  unfolding at_receiver
  at_receiver-IsQuiet (put_flag v) s h = h
  at_receiver-IsQuiet put_data s h = h
  at_receiver-IsQuiet get_data s h = h
  at_receiver-IsQuiet fence s h = h

  at_sender-IsQuiet : (w : Wire) (s : System) → IsQuiet b c s → IsQuiet b c (at_sender w s)
  unfolding at_sender
  at_sender-IsQuiet (put_flag v) s h = h
  at_sender-IsQuiet put_data s h = h
  at_sender-IsQuiet get_data s h = h
  at_sender-IsQuiet fence s h = h

  -- A side whose operation has been carried out had one under way.
  taken_from_sender :
      (s : System) {w : Wire} {q : List Wire}
      → Takes s.s_out w q
      → IsQuiet b c s
      → Quiet b c q s.r_out s.s_active s.r_pc
  taken_from_sender s t h = record {
    s_carries = Takes-Carries b t h.s_carries;
    r_carries = h.r_carries;
    s_flushed = λ e. absurd (no_takes (h.s_flushed e) t);
    r_flushed = h.r_flushed;
    r_waits = h.r_waits;
  }

  taken_from_receiver :
      (s : System) {w : Wire} {q : List Wire}
      → Takes s.r_out w q
      → IsQuiet b c s
      → Quiet b c s.s_out q s.s_active s.r_pc
  taken_from_receiver s t h = record {
    s_carries = h.s_carries;
    r_carries = Takes-Carries c t h.r_carries;
    s_flushed = h.s_flushed;
    r_flushed = λ e. absurd (no_takes (h.r_flushed e) t);
    r_waits = λ e. absurd (no_takes (h.r_waits e) t);
  }

  -- The receiver has waited for its flushes.
  flushed :
      (s : System) (pc : Pc)
      → s.r_out ≡ []
      → IsQuiet b c s
      → Quiet b c s.s_out s.r_out s.s_active pc
  flushed s pc out h = record {
    s_carries = h.s_carries;
    r_carries = h.r_carries;
    s_flushed = h.s_flushed;
    r_flushed = λ _. out;
    r_waits = λ _. out;
  }

  silent-IsQuiet :
      {message : ℕ → ℕ} {s t : System} (act : Step message s t)
      → IsSilent act
      → IsQuiet b c s
      → IsQuiet b c t
  silent-IsQuiet {s = s} (ends_send e out f) i h = record {
    s_carries = h.s_carries;
    r_carries = h.r_carries;
    s_flushed = λ _. out;
    r_flushed = h.r_flushed;
    r_waits = h.r_waits;
  }
  silent-IsQuiet {s = s} (enters_wait e out) i h = flushed s waiting out h
  silent-IsQuiet {s = s} (ends_recv e f) i h = flushed s inactive (h.r_waits e) h
  silent-IsQuiet {s = s} (ends_fetch e out) i h = flushed s inactive out h
  silent-IsQuiet {s = s} (reaches_receiver {w = w} t) i h =
      at_receiver-IsQuiet w _ (taken_from_sender s t h)
  silent-IsQuiet {s = s} (reaches_sender {w = w} t) i h =
      at_sender-IsQuiet w _ (taken_from_receiver s t h)
  silent-IsQuiet (starts_send e) i h = absurd i
  silent-IsQuiet (starts_recv e) i h = absurd i
  silent-IsQuiet (progresses pc) i h = absurd i
  silent-IsQuiet (resolves e f) i h = absurd i

  -- Where nothing is under way, what is issued carries the value that has been assigned.
  recv_issued :
      (s : System) (n : ℕ) (pc : Pc)
      → s.r_out ≡ []
      → (pc ≡ inactive → ⊥)
      → (pc ≡ waiting → ⊥)
      → IsQuiet b c s
      → Quiet b
          (buffer_after (recv_wires n s.r_flag) c)
          s.s_out
          (s.r_out ++ recv_wires n s.r_flag)
          s.s_active
          pc
  recv_issued s n pc out ni nw h = rw out (record {
    s_carries = h.s_carries;
    r_carries = recv_wires-Carries n s.r_flag c;
    s_flushed = h.s_flushed;
    r_flushed = λ e. absurd (ni e);
    r_waits = λ e. absurd (nw e);
  })

module _ (message : ℕ → ℕ) where
  SingleStep-Steady : {l m : Single} → SingleStep message l m → Steady message l → Steady message m
  unfolding start_send start_recv resolve_crosstalk
  SingleStep-Steady {l} (single_starts_send e) (r, h) = (
    next r (starts_send e),
    rw (h.s_flushed e) (record {
      s_carries = send_wires-Carries (l.system.s_op + 1) l.system.s_flag l.s_buffer;
      r_carries = h.r_carries;
      s_flushed = λ a. absurd (ground (arith, a));
      r_flushed = h.r_flushed;
      r_waits = h.r_waits;
    }),
  )
  SingleStep-Steady {l} (single_starts_recv e) (r, h) = (
    next r (starts_recv e),
    recv_issued l.s_buffer l.r_buffer l.system (l.system.r_op + 1) started (h.r_flushed e)
        (λ a. ground (arith, a)) (λ a. ground (arith, a)) h,
  )
  SingleStep-Steady {l} (single_resolves e f) (r, h) = (
    next r (resolves e f),
    recv_issued l.s_buffer l.r_buffer l.system l.system.r_op completing (h.r_waits e)
        (λ a. ground (arith, a)) (λ a. ground (arith, a)) h,
  )
  SingleStep-Steady {l} (acts act i) (r, h) =
      (next r act, silent-IsQuiet l.s_buffer l.r_buffer act i h)
  SingleStep-Steady {l} (reads_sender reads) h = rw (Reads-same reads h.1.s_carries) h
  SingleStep-Steady {l} (reads_receiver reads) h = rw (Reads-same reads h.1.r_carries) h

  SingleRun-Steady : {l m : Single} → SingleRun message l m → Steady message l → Steady message m
  SingleRun-Steady stop h = h
  SingleRun-Steady (step t run) h = SingleRun-Steady run (SingleStep-Steady t h)

  connected-Steady : Steady message (connected_single message)
  connected-Steady = (
    start,
    record {
      s_carries = tt;
      r_carries = tt;
      s_flushed = λ _. refl;
      r_flushed = λ _. refl;
      r_waits = λ _. refl;
    },
  )

  pub connected_run-Steady :
      {l : Single} → SingleRun message (connected_single message) l → Steady message l
  connected_run-Steady run = SingleRun-Steady run connected-Steady

  -- Of a pair whose receiving process has no other request: between two receives the receiver's
  -- buffer holds the message of its last operation, and each operation behind the first has copied the
  -- data by RDMA exactly once. This holds whatever the sender has done since, in whatever order the
  -- network has carried out what no fence orders, and whenever a put reads `flag_buffer`.
  pub SingleRun-received :
      (l : Single)
      → SingleRun message (connected_single message) l
      → l.system.r_pc ≡ inactive
      → (l.system.r_buf ≡ message l.system.r_op) × (l.system.copies + 1 ≡ l.system.r_op)
  SingleRun-received l run e = Reach-received message l.system (connected_run-Steady run).0 e

  -- Of such a pair: when the sender is between two operations, so that it may fill its buffer again,
  -- the receiver's buffer holds the message of the sender's last operation, whenever a put reads
  -- `flag_buffer`.
  pub SingleRun-sent :
      (l : Single)
      → SingleRun message (connected_single message) l
      → l.system.s_active ≡ false
      → l.system.r_buf ≡ message l.system.s_op
  SingleRun-sent l run e = Reach-sent message l.system (connected_run-Steady run).0 e
