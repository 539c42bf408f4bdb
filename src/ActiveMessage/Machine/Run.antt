-- ===== src/ActiveMessage/Machine/Run.antt =====
-- The actions on the requests and the library run one after the other, as equations for simp.
use mpi_comp_match.Base.{ℕ, ◌≡◌, refl, [], ◌∷◌}
use mpi_comp_match.Machine.{Action, done, update, update_self, ◌>>=◌, pure, basic_actions}
use mpi_comp_match.Machine.Run.{
  bind_pure, bind_fail, bind_assoc, bind_get, pure_bind, pure_end, fail_end, when-true, when-false,
  assert-true, assert-false,
}
use mpi_comp_match.ActiveMessage.Request.{Request}
use mpi_comp_match.ActiveMessage.Library.{Library, Reply, Call}
use mpi_comp_match.ActiveMessage.Machine.{M, State, land, load, modify, issue, call, run_handlers}

module _ {World : Type 0} where
  module _ {B : Type 0} (p : ℕ) (s : State World) where
    pub bind_load : (f : Request → M World B) → (load p >>= f) s ≡ f (s.heap p) s
    unfolding load basic_actions
    bind_load f = refl

    pub bind_modify :
        (g : Request → Request) (f : Unit {0} → M World B)
        → (modify p g >>= f) s ≡ f tt (record s { heap = update s.heap p g })
    unfolding modify basic_actions
    bind_modify g f = refl

  pub modify_end :
      (p : ℕ) (s : State World) (g : Request → Request)
      → modify p g s ≡ done tt (record s { heap = update s.heap p g })
  unfolding modify
  modify_end p s g = refl

  module _ ⦃lib : Library World⦄ (c : Call) (s : State World) where
    -- The state behind a call, before the handlers run.
    abbrev pub issued : State World
    issued = record s {
      heap = land (lib.perform c s.world).0.am_ids s.heap;
      world = (lib.perform c s.world).1;
      log = c ∷ s.log;
    }

    pub bind_issue :
        {B : Type 0} (f : Reply → M World B)
        → (issue c >>= f) s ≡ f (lib.perform c s.world).0 issued
    unfolding issue basic_actions
    bind_issue f = refl

    -- A call, with the handlers of the messages that come in.
    pub bind_call :
        {B : Type 0} (f : Reply → M World B)
        → (call c >>= f) s
          ≡ (run_handlers (lib.perform c s.world).0.incoming >>= λ _. f (lib.perform c s.world).0)
              issued
    unfolding call
    bind_call f = simp (bind_assoc, bind_issue, pure_bind)

  pub run_nothing : ⦃lib : Library World⦄ → run_handlers {World = World} [] ≡ pure tt
  unfolding run_handlers
  run_nothing = refl

pub ruleset run = (
  bind_pure, bind_fail, bind_assoc, bind_get, pure_end, fail_end, when-true, when-false,
  assert-true, assert-false, bind_load, bind_modify, modify_end, bind_issue, bind_call, run_nothing,
  update_self,
)
