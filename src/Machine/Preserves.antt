-- ===== src/Machine/Preserves.antt =====
-- A relation between the states before and after an action, one rule for each way to build one.
use mpi_comp_match.Base.{ℕ, Bool, true, false, if◌then◌else◌}
use mpi_comp_match.Machine.{
  Action, Outcome, Ensures, done, fault, Fault, ◌>>=◌, pure, fail, when, assert, int_value, get,
  basic_actions,
}

pub record Preorder {S : Type 0} (R : S → S → Type 0) : Type 0 where
  pub same : (s : S) → R s s
  pub chain : (s t u : S) → R s t → R t u → R s u

-- Wherever the action returns, the states are related.
pub record Preserves {S A : Type 0} (R : S → S → Type 0) (m : Action S A) : Type 0 where
  pub at : (s : S) → Ensures (m s) λ _ s'. R s s'

module _ {S : Type 0} {R : S → S → Type 0} ⦃pre : Preorder R⦄ where
  pub Preserves-bind :
      {A B : Type 0} (m : Action S A) (f : A → Action S B)
      → Preserves R m
      → ((a : A) → Preserves R (f a))
      → Preserves R (m >>= f)
  unfolding ◌>>=◌
  Preserves-bind {A} {B} m f km kf = record { at = λ s. go s (m s) (km.at s) }
    where
      after :
          (s t : S) (o : Outcome S B) → R s t → Ensures o (λ _ u. R t u) → Ensures o λ _ u. R s u
      after s t (done b u) h k = pre.chain s t u h k
      after s t (fault e) h k = tt

      go :
          (s : S) (o : Outcome S A)
          → Ensures o (λ _ t. R s t)
          → Ensures {S = S} {A = B} (elim o [ done a t ↦ f a t | fault e ↦ fault e ]) λ _ u. R s u
      go s (done a t) h = after s t (f a t) h ((kf a).at t)
      go s (fault e) h = tt

  pub Preserves-pure : {A : Type 0} (a : A) → Preserves R (pure a)
  unfolding basic_actions
  Preserves-pure a = record { at = pre.same }

  pub Preserves-fail : {A : Type 0} (e : Fault) → Preserves R (fail {A = A} e)
  unfolding basic_actions
  Preserves-fail e = record { at = λ s. tt }

  pub Preserves-get : {A : Type 0} (field : S → A) → Preserves R (get field)
  unfolding basic_actions
  Preserves-get field = record { at = pre.same }

  pub Preserves-if :
      {A : Type 0} (b : Bool) (m n : Action S A)
      → Preserves R m
      → Preserves R n
      → Preserves R (if b then m else n)
  Preserves-if true m n km kn = km
  Preserves-if false m n km kn = kn

  pub Preserves-when : (b : Bool) (m : Action S (Unit {0})) → Preserves R m → Preserves R (when b m)
  unfolding when
  Preserves-when true m km = km
  Preserves-when false m km = Preserves-pure tt

  pub Preserves-assert : (b : Bool) → Preserves R (assert b)
  unfolding assert
  Preserves-assert true = Preserves-pure tt
  Preserves-assert false = Preserves-fail _

  pub Preserves-int_value : (n : ℕ) → Preserves R (int_value n)
  unfolding int_value
  Preserves-int_value n = Preserves-if _ (pure n) (fail _) (Preserves-pure n) (Preserves-fail _)

pub ruleset preserving = (
  Preserves-bind, Preserves-pure, Preserves-fail, Preserves-get, Preserves-if, Preserves-when,
  Preserves-assert, Preserves-int_value,
)

pub Ensures-map :
    {S A : Type 0} (P Q : A → S → Type 0) (o : Outcome S A)
    → ((a : A) (s : S) → P a s → Q a s)
    → Ensures o P
    → Ensures o Q
Ensures-map P Q (done a s) k h = k a s h
Ensures-map P Q (fault e) k h = tt
