-- ===== src/Machine/Run.antt =====
-- The actions run one after the other, as equations for simp. `>>=` stays shut.
use mpi_comp_match.Base.{ℕ, ◌≡◌, refl, true, false, ltb}
use mpi_comp_match.Machine.{
  Action, Outcome, Returns, done, fault, Fault, assertion_failed, int_limit, ◌>>=◌, pure, fail,
  when, assert, int_value, get, basic_actions,
}

module _ {S : Type 0} where
  -- the same, where no state is at hand yet
  pub pure_bind : {A B : Type 0} (a : A) (f : A → Action S B) → (pure a >>= f) ≡ f a
  unfolding basic_actions
  pure_bind a f = refl

  module _ {A B : Type 0} (f : A → Action S B) (s : S) where
    pub bind_pure : (a : A) → (pure a >>= f) s ≡ f a s
    unfolding basic_actions
    bind_pure a = refl

    pub bind_fail : (e : Fault) → (fail e >>= f) s ≡ fault e
    unfolding basic_actions
    bind_fail e = refl

    pub bind_assoc :
        {C : Type 0} (m : Action S C) (g : C → Action S A)
        → ((m >>= g) >>= f) s ≡ (m >>= λ c. g c >>= f) s
    unfolding basic_actions
    bind_assoc m g = go (m s)
      where
        go :
            (o : Outcome S _)
            → ◌≡◌ {A = Outcome S B}
                (elim (let x : Outcome S A = elim o [ done a t ↦ g a t | fault e ↦ fault e ] in x) [
                  | done a t ↦ f a t
                  | fault e ↦ fault e
                ])
                (elim o [
                  | done c t ↦ elim (g c t) [ done a u ↦ f a u | fault e ↦ fault e ]
                  | fault e ↦ fault e
                ])
        go (done a t) = refl
        go (fault e) = refl

  pub bind_get :
      {A B : Type 0} (field : S → A) (f : A → Action S B) (s : S)
      → (get field >>= f) s ≡ f (field s) s
  unfolding basic_actions
  bind_get field f s = refl

  pub pure_end : {A : Type 0} (a : A) (s : S) → pure a s ≡ done a s
  unfolding basic_actions
  pure_end a s = refl

  pub fail_end : {A : Type 0} (e : Fault) (s : S) → fail {A = A} e s ≡ fault e
  unfolding basic_actions
  fail_end e s = refl

  pub when-true : (m : Action S (Unit {0})) → when true m ≡ m
  unfolding basic_actions
  when-true m = refl

  pub when-false : (m : Action S (Unit {0})) → when false m ≡ pure tt
  unfolding basic_actions
  when-false m = refl

  pub assert-true : assert {S = S} true ≡ pure tt
  unfolding basic_actions
  assert-true = refl

  pub assert-false : assert {S = S} false ≡ fail assertion_failed
  unfolding basic_actions
  assert-false = refl

  pub int_value_fits : (n : ℕ) → ltb n int_limit ≡ true → int_value {S = S} n ≡ pure n
  unfolding basic_actions
  int_value_fits n h = rw h

module _ {S A B : Type 0} (P : A → S → Type 0) (Q : B → S → Type 0) where
  pub Returns-bind :
      (m : Action S A) (f : A → Action S B) (s : S)
      → Returns (m s) P
      → ((a : A) (t : S) → P a t → Returns (f a t) Q)
      → Returns ((m >>= f) s) Q
  unfolding ◌>>=◌
  Returns-bind m f s h k = go (m s) h
    where
      go :
          (o : Outcome S A)
          → Returns o P
          → Returns {S = S} {A = B} (elim o [ done a t ↦ f a t | fault e ↦ fault e ]) Q
      go (done a t) h = k a t h
      go (fault e) h = absurd h

module _ {S A B : Type 0} (m : Action S A) (f : A → Action S B) (s : S) (e : Fault) where
  -- A fault stops what follows.
  pub bind_fault : m s ≡ fault e → (m >>= f) s ≡ fault e
  unfolding ◌>>=◌
  bind_fault h = rw (h, ◌>>=◌)

  pub fault-bind :
      (P : A → S → Type 0)
      → Returns (m s) P
      → ((a : A) (t : S) → P a t → f a t ≡ fault e)
      → (m >>= f) s ≡ fault e
  unfolding ◌>>=◌
  fault-bind P h k = go (m s) h
    where
      go :
          (o : Outcome S A)
          → Returns o P
          → ◌≡◌ {A = Outcome S B} (elim o [ done a t ↦ f a t | fault e' ↦ fault e' ]) (fault e)
      go (done a t) h = k a t h
      go (fault e') h = absurd h

pub Returns-map :
    {S A : Type 0} (P Q : A → S → Type 0) (o : Outcome S A)
    → ((a : A) (t : S) → P a t → Q a t)
    → Returns o P
    → Returns o Q
Returns-map P Q (done a t) k h = k a t h
Returns-map P Q (fault e) k h = absurd h

pub ruleset run = (
  bind_pure, bind_fail, bind_assoc, bind_get, pure_end, fail_end, when-true, when-false,
  assert-true, assert-false, int_value_fits,
)
