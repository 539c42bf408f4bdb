-- ===== src/Pass/Search/Paths.antt =====
-- What holds of every instruction that the search may come to holds of all that it keeps.
use mpi_comp_match.Base.{
  ℕ, zero, suc, ◌≡◌, ◌≢◌, refl, Bool, true, false, List, [], ◌∷◌, none, some, ◌&&◌, not, ◌==◌, ltb,
  if◌then◌else◌, All, ==_self, arith,
}
use mpi_comp_match.Pass.Checked.{Checked, ◌>>=◌, pure, Ensured, Ensured-assert}
use mpi_comp_match.Pass.Llvm.{Llvm}
use mpi_comp_match.Pass.Search.{
  contains, insert, Position, blocks_behind, add_blocks, add_returns, add_exits, next_of, choose,
  advance,
}

if_rule : {A : Type 0} (Q : A → Type 0) (b : Bool) {x y : A} → Q x → Q y → Q (if b then x else y)
if_rule Q true h k = h
if_rule Q false h k = k

pub if_split :
    {A : Type 0} (Q : A → Type 0) (b : Bool) {x y : A}
    → (b ≡ true → Q x)
    → (b ≡ false → Q y)
    → Q (if b then x else y)
if_split Q true h k = h refl
if_split Q false h k = k refl

module _ (P : ℕ → Type 0) where
  All-insert : (x : ℕ) (l : List ℕ) → P x → All P l → All P (insert x l)
  unfolding insert
  All-insert x [] h k = (h, tt)
  All-insert x (y ∷ rest) h (k, ks) =
      if_rule (All P) (x == y) (k, ks)
        (if_rule (All P) (ltb x y) (h, (k, ks)) (k, All-insert x rest h ks))

  pub All-contained : (l : List ℕ) → ((x : ℕ) → contains x l ≡ true → P x) → All P l
  All-contained [] h = tt
  All-contained (x ∷ rest) h =
      (h x (simp ==_self), All-contained rest (λ y e. h y (ground (arith, e))))

  All-some : (l : List ℕ) → All P l → Ensured (All P) (pure l)
  All-some l h = h

module _ (ir : Llvm) (P : ℕ → Type 0) where
  All-add_blocks :
      (checked blocks to_check : List ℕ)
      → All (λ b. P (ir.get_first_non_phi b)) blocks
      → All P to_check
      → All P (add_blocks ir checked blocks to_check)
  unfolding add_blocks
  All-add_blocks checked [] to_check h k = k
  All-add_blocks checked (b ∷ rest) to_check (h, hs) k =
      All-add_blocks checked rest _ hs
        (if_rule (All P) (contains b checked) k (All-insert P _ to_check h k))

  All-add_returns :
      (function : ℕ) (users to_check : List ℕ)
      → ((u : ℕ)
          → (ir.is_call u && ir.get_called_function u == function) ≡ true
          → contains u users ≡ true
          → P (ir.get_next_node u))
      → All P to_check
      → Ensured (All P) (add_returns ir function users to_check)
  unfolding add_returns
  All-add_returns function [] to_check h k = k
  All-add_returns function (u ∷ rest) to_check h k =
      let others = λ (l : List ℕ) (k' : All P l).
        All-add_returns function rest l (λ v e m. h v e (ground (arith, m))) k' in
      if_split (Ensured (All P)) (ir.is_call u && ir.get_called_function u == function)
        (λ e.
          Ensured-assert (All P) (not (ir.get_next_node u == 0)) _
            (others _ (All-insert P _ to_check (h u e (simp ==_self)) k)))
        (λ e. others to_check k)

  All-add_exits :
      (inst : ℕ) (to_check : List ℕ)
      → (ir.is_return inst ≡ true
          → (u : ℕ) → (ir.is_call u && ir.get_called_function u == ir.get_function inst) ≡ true
          → contains u (ir.users (ir.get_function inst)) ≡ true
          → P (ir.get_next_node u))
      → All P to_check
      → Ensured (All P) (add_exits ir inst to_check)
  unfolding add_exits
  All-add_exits inst to_check h k =
      if_split (Ensured (All P)) (ir.is_terminator inst && ir.is_return inst)
        (λ e. All-add_returns _ _ to_check (h (ground arith)) k) (λ e. k)

  -- What holds of the current instruction, where there is one, and of those to be checked.
  abbrev pub Throughout : Position → Type 0
  Throughout at = (at.next_inst ≢ 0 → P at.next_inst) × All P at.to_check

  Throughout-choose :
      (next : ℕ) (to_check checked : List ℕ)
      → (next ≢ 0 → P next)
      → All P to_check
      → Throughout (choose ir next to_check checked)
  unfolding choose
  Throughout-choose zero [] checked h k = (h, tt)
  Throughout-choose zero (i ∷ rest) checked h (k, ks) = ((λ e. k), ks)
  Throughout-choose (suc n) to_check checked h k = (h, k)

  pub Throughout-advance :
      (guard : ℕ × Bool) (at : Position)
      → (next_of ir at.next_inst ≢ 0 → P (next_of ir at.next_inst))
      → All (λ b. P (ir.get_first_non_phi b)) (blocks_behind ir guard at.next_inst)
      → (ir.is_return at.next_inst ≡ true
          → (u : ℕ)
          → (ir.is_call u && ir.get_called_function u == ir.get_function at.next_inst) ≡ true
          → contains u (ir.users (ir.get_function at.next_inst)) ≡ true
          → P (ir.get_next_node u))
      → All P at.to_check
      → Ensured Throughout (advance ir guard at)
  unfolding advance
  Throughout-advance guard at next blocks exits k = go _ (
      All-add_exits at.next_inst _ exits (
        All-add_blocks at.already_checked (blocks_behind ir guard at.next_inst) at.to_check blocks
          k))
    where
      go :
          (c : Checked (List ℕ))
          → Ensured (All P) c
          → Ensured Throughout
              (c >>= λ l. pure (choose ir (next_of ir at.next_inst) l at.already_checked))
      go none h = tt
      go (some l) h = Throughout-choose _ l at.already_checked next h
