-- ===== src/Pass/Checked.antt =====
-- A computation that stops at a failing assertion.
use mpi_comp_match.Base.{ℕ, ◌≡◌, refl, subst, Bool, true, false, Option, none, some}

abbrev pub Checked : Type 0 → Type 0
Checked A = Option A

infixl 5 ◌>>=◌ ◌>>◌
abbrev pub ◌>>=◌ : {A B : Type 0} → Checked A → (A → Checked B) → Checked B
none >>= f = none
some a >>= f = f a

abbrev pub ◌>>◌ : {B : Type 0} → Checked (Unit {0}) → Checked B → Checked B
m >> k = m >>= λ _. k

-- assert(b)
abbrev pub assert : Bool → Checked (Unit {0})
assert true = some tt
assert false = none

abbrev pub pure : {A : Type 0} → A → Checked A
pure a = some a

-- Unless an assertion fails.
abbrev pub Ensured : {A : Type 0} → (A → Type 0) → Checked A → Type 0
Ensured Q none = Unit
Ensured Q (some a) = Q a

pub Ensured-assert :
    {A : Type 0} (Q : A → Type 0) (b : Bool) (m : Checked A)
    → Ensured Q m
    → Ensured Q (assert b >> m)
Ensured-assert Q true m h = h
Ensured-assert Q false m h = tt

pub Ensured-checked :
    {A : Type 0} (Q : A → Type 0) (b : Bool) (m : Checked A)
    → (b ≡ true → Ensured Q m)
    → Ensured Q (assert b >> m)
Ensured-checked Q true m h = h refl
Ensured-checked Q false m h = tt

pub Ensured-bind :
    {A B : Type 0} (P : A → Type 0) (Q : B → Type 0) (m : Checked A) (f : A → Checked B)
    → Ensured P m
    → ((a : A) → P a → Ensured Q (f a))
    → Ensured Q (m >>= f)
Ensured-bind P Q none f h k = tt
Ensured-bind P Q (some a) f h k = k a h

pub Ensured-map :
    {A : Type 0} (P Q : A → Type 0) (m : Checked A)
    → ((a : A) → P a → Q a)
    → Ensured P m
    → Ensured Q m
Ensured-map P Q none k h = tt
Ensured-map P Q (some a) k h = k a h

-- What is computed holds of what it has been computed as.
pub Ensured-self : {A : Type 0} (m : Checked A) → Ensured (λ a. m ≡ some a) m
Ensured-self none = tt
Ensured-self (some a) = refl

pub Ensured-all :
    {A : Type 0} (P : ℕ → A → Type 0) (m : Checked A)
    → ((c : ℕ) → Ensured (P c) m)
    → Ensured (λ a. (c : ℕ) → P c a) m
Ensured-all P none h = tt
Ensured-all P (some a) h = h

pub Ensured_result :
    {A : Type 0} (Q : A → Type 0) (m : Checked A) (a : A) → Ensured Q m → m ≡ some a → Q a
Ensured_result Q m a h e = subst (Ensured Q) e h
