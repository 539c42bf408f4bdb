-- ===== src/Protocol/Single/Ends.antt =====
-- From every state that such a pair can reach, it can end an operation that both have started.
use mpi_comp_match.Base.{ℕ, ◌≡◌, false}
use mpi_comp_match.Protocol.System.{
  System, inactive, Step, starts_send, ends_send, starts_recv, progresses, enters_wait, resolves,
  ends_recv, ends_fetch, reaches_receiver, reaches_sender,
}
use mpi_comp_match.Protocol.Finish.{Run, stop, step, IsOwn, Finishes, Reach-Finishes}
use mpi_comp_match.Protocol.Single.{
  Single, SingleStep, single_starts_send, single_starts_recv, single_resolves, acts,
  connected_single, SingleRun,
}
use mpi_comp_match.Protocol.Single as Runs
use mpi_comp_match.Protocol.Single.Received.{connected_run-Steady}

abbrev single : System → ℕ → ℕ → Single
single s s_buffer r_buffer = record { system = s; s_buffer = s_buffer; r_buffer = r_buffer }

module _ (message : ℕ → ℕ) where
  -- A run to where both sides are between two operations, with no other operation started.
  pub record SingleFinishes (l : Single) : Type 0 where
    pub final : Single
    pub run : SingleRun message l final
    pub sender : final.system.s_active ≡ false
    pub receiver : final.system.r_pc ≡ inactive
    pub s_op : final.system.s_op ≡ l.system.s_op
    pub r_op : final.system.r_op ≡ l.system.r_op

  abbrev Leads : Single → System → Type 0
  Leads l t = (b : ℕ) × ((c : ℕ) × SingleStep message l (single t b c))

  lift_step :
      {s t : System} (act : Step message s t)
      → IsOwn message act
      → (b c : ℕ) → Leads (single s b c) t
  lift_step (starts_send e) own b c = (_, (_, single_starts_send e))
  lift_step (ends_send e out f) own b c = (b, (c, acts (ends_send e out f) tt))
  lift_step (starts_recv e) own b c = (_, (_, single_starts_recv e))
  lift_step (progresses pc) own b c = absurd own
  lift_step (enters_wait e out) own b c = (b, (c, acts (enters_wait e out) tt))
  lift_step (resolves e f) own b c = (_, (_, single_resolves e f))
  lift_step (ends_recv e f) own b c = (b, (c, acts (ends_recv e f) tt))
  lift_step (ends_fetch e out) own b c = (b, (c, acts (ends_fetch e out) tt))
  lift_step (reaches_receiver t) own b c = (b, (c, acts (reaches_receiver t) tt))
  lift_step (reaches_sender t) own b c = (b, (c, acts (reaches_sender t) tt))

  abbrev LeadsOn : Single → System → Type 0
  LeadsOn l t = (b : ℕ) × ((c : ℕ) × SingleRun message l (single t b c))

  lift_run : {s t : System} → Run message s t → (b c : ℕ) → LeadsOn (single s b c) t
  lift_run stop b c = (b, (c, Runs.stop))
  lift_run (step act own run) b c =
      let (b', (c', first)) = lift_step act own b c in
      let (b'', (c'', rest)) = lift_run run b' c' in (b'', (c'', Runs.step first rest))

  lifted : (l : Single) → Finishes message l.system → SingleFinishes l
  lifted l h =
      let (b, (c, run)) = lift_run h.run l.s_buffer l.r_buffer in
      record {
        final = single h.final b c;
        run = run;
        sender = h.sender;
        receiver = h.receiver;
        s_op = h.s_op;
        r_op = h.r_op;
      }

  -- Of a pair whose receiving process has no other request: from every state in which both sides are in
  -- the same operation, or have ended it, some run without a start of another operation leads to a
  -- state in which both have ended it. No order of steps that has come before leads to a deadlock,
  -- crosstalk and late reads of `flag_buffer` included.
  pub SingleRun-Finishes :
      (l : Single)
      → SingleRun message (connected_single message) l
      → l.system.s_op ≡ l.system.r_op
      → SingleFinishes l
  SingleRun-Finishes l run e =
      lifted l (Reach-Finishes message l.system (connected_run-Steady message run).0 e)
