-- ===== src/Rendezvous/Machine/Run.antt =====
-- The actions on the requests and the library run one after the other, as equations for simp.
use mpi_comp_match.Base.{ℕ, ◌≡◌, refl, ◌∷◌}
use mpi_comp_match.Rendezvous.Request.{Request}
use mpi_comp_match.Rendezvous.Library.{Library, Reply, Call}
use mpi_comp_match.Rendezvous.Machine.{
  M, State, done, land, update, ◌>>=◌, load, modify, call, actions, update_self,
}
use mpi_comp_match.Machine.Run.{
  bind_pure, bind_fail, bind_assoc, bind_get, pure_end, fail_end, when-true, when-false,
  assert-true, assert-false, int_value_fits,
}
pub use mpi_comp_match.Machine.Run.{Returns-bind, Returns-map, bind_fault, fault-bind}

module _ {World : Type 0} where
  module _ {B : Type 0} (p : ℕ) (s : State World) where
    pub bind_load : (f : Request → M World B) → (load p >>= f) s ≡ f (s.heap p) s
    unfolding actions
    bind_load f = refl

    pub bind_modify :
        (g : Request → Request) (f : Unit {0} → M World B)
        → (modify p g >>= f) s ≡ f tt (record s { heap = update s.heap p g })
    unfolding actions
    bind_modify g f = refl

  pub modify_end :
      (p : ℕ) (s : State World) (g : Request → Request)
      → modify p g s ≡ done tt (record s { heap = update s.heap p g })
  unfolding actions
  modify_end p s g = refl

  pub bind_call :
      ⦃lib : Library World⦄ {B : Type 0} (c : Call) (f : Reply → M World B) (s : State World)
      → (call c >>= f) s
        ≡ f (lib.perform c s.world).0 (record s {
          heap = land (lib.perform c s.world).0.writes s.heap;
          world = (lib.perform c s.world).1;
          log = c ∷ s.log;
        })
  unfolding actions
  bind_call c f s = refl

pub ruleset run = (
  bind_pure, bind_fail, bind_assoc, bind_load, bind_get, bind_modify, bind_call, modify_end,
  pure_end, fail_end, when-true, when-false, assert-true, assert-false, int_value_fits, update_self,
)
