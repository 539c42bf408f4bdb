-- ===== src/Machine.antt =====
-- Actions over a state: an action returns a value and the next state, or stops at a fault. The
-- functions of both variants are actions over the state of one process.
pub mod Run
pub mod Preserves
use mpi_comp_match.Base.{ℕ, ◌^◌, ◌≡◌, ◌≢◌, Bool, true, false, arith, ltb, ◌==◌, if◌then◌else◌}

-- A failing assertion, signed overflow or a read past a buffer, and fuel that has run out.
pub data Fault : Type 0 where
  assertion_failed : Fault
  undefined_behaviour : Fault
  out_of_fuel : Fault

pub data Outcome (S A : Type 0) : Type 0 where
  done : A → S → Outcome S A
  fault : Fault → Outcome S A

abbrev pub Action : Type 0 → Type 0 → Type 0
Action S A = S → Outcome S A

abbrev pub Returns : {S A : Type 0} → Outcome S A → (A → S → Type 0) → Type 0
Returns (done a s) P = P a s
Returns (fault f) P = ⊥

abbrev pub Ensures : {S A : Type 0} → Outcome S A → (A → S → Type 0) → Type 0
Ensures (done a s) P = P a s
Ensures (fault f) P = Unit

-- INT_MAX + 1
abbrev pub int_limit : ℕ
int_limit = 2 ^ 31

-- A heap with one object replaced.
module _ {Object : Type 0} where
  unfoldable pub update : (ℕ → Object) → ℕ → (Object → Object) → ℕ → Object
  update heap p f q = if p == q then f (heap q) else heap q

  module _ (heap : ℕ → Object) (p : ℕ) (f : Object → Object) where
    pub update_self : update heap p f p ≡ f (heap p)
    unfolding update
    update_self = ground arith

    pub update-ne : (q : ℕ) → q ≢ p → update heap p f q ≡ heap q
    unfolding update
    update-ne q h = ground arith

module _ {S : Type 0} where
  infixl 5 ◌>>=◌ ◌>>◌
  unfoldable pub ◌>>=◌ : {A B : Type 0} → Action S A → (A → Action S B) → Action S B
  ◌>>=◌ m f s = elim (m s) [ done a s' ↦ f a s' | fault e ↦ fault e ]

  abbrev pub ◌>>◌ : {B : Type 0} → Action S (Unit {0}) → Action S B → Action S B
  m >> k = m >>= λ _. k

  unfoldable pub pure : {A : Type 0} → A → Action S A
  pure a s = done a s

  unfoldable pub fail : {A : Type 0} → Fault → Action S A
  fail e s = fault e

  unfoldable pub when : Bool → Action S (Unit {0}) → Action S (Unit {0})
  when true m = m
  when false m = pure tt

  -- assert(b)
  unfoldable pub assert : Bool → Action S (Unit {0})
  unfolding pure fail
  assert true = pure tt
  assert false = fail assertion_failed

  -- The value of an expression of type int; its overflow is undefined.
  unfoldable pub int_value : ℕ → Action S ℕ
  unfolding pure fail
  int_value n = if ltb n int_limit then pure n else fail undefined_behaviour

  -- a part of the state
  unfoldable pub get : {A : Type 0} → (S → A) → Action S A
  get field s = done (field s) s

-- Opens the actions above, for a proof that runs them.
unfoldable pub basic_actions : Unit {0}
unfolding ◌>>=◌ pure fail when assert int_value get
basic_actions = tt
