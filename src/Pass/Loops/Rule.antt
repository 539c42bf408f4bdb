-- ===== src/Pass/Loops/Rule.antt =====
-- What holds of the visited blocks throughout the search of an iteration.
use mpi_comp_match.Base.{ℕ, ◌≡◌, true, false, List, [], ◌∷◌, none, some, ◌&&◌, not, ==_self, arith}
use mpi_comp_match.Pass.Llvm.{Llvm}
use mpi_comp_match.Pass.Search.{contains}
use mpi_comp_match.Pass.Search.Paths.{if_split}
use mpi_comp_match.Pass.Loops.{LoopAnalysis, Visit, or_else, any_successor}

-- `D` where the fuel has run out; otherwise `Q` holds of the blocks, and `X` where a path is found.
abbrev pub Outcome : (D : Type 0) (Q : List ℕ → Type 0) (X : Type 0) → Visit → Type 0
Outcome D Q X none = D
Outcome D Q X (some (found, visited)) = Q visited × (found ≡ true → X)

pub Outcome-map :
    (D : Type 0) (Q R : List ℕ → Type 0) (X : Type 0) (v : Visit)
    → ((l : List ℕ) → Q l → R l)
    → Outcome D Q X v
    → Outcome D R X v
Outcome-map D Q R X none k h = h
Outcome-map D Q R X (some (found, l)) k (q, x) = (k l q, x)

Outcome-or_else :
    (D : Type 0) (Q : List ℕ → Type 0) (X : Type 0) (v : Visit) (others : List ℕ → Visit)
    → Outcome D Q X v
    → ((l : List ℕ) → Q l → Outcome D Q X (others l))
    → Outcome D Q X (or_else v others)
Outcome-or_else D Q X none others h k = h
Outcome-or_else D Q X (some (true, l)) others h k = h
Outcome-or_else D Q X (some (false, l)) others (q, x) k = k l q

module _ (ir : Llvm) (analysis : LoopAnalysis) (loop block1 block2 : ℕ) where
  pub any_successor_rule :
      (D : Type 0) (Q : List ℕ → Type 0) (X : Type 0) (search : ℕ → List ℕ → Visit)
      (blocks visited : List ℕ)
      → Q visited
      → ((next : ℕ) (l : List ℕ)
          → contains next blocks ≡ true
          → analysis.contains_block loop next ≡ true
          → contains next l ≡ false
          → Q l
          → Outcome D Q X (search next l))
      → Outcome D Q X (any_successor ir analysis loop block1 block2 search blocks visited)
  unfolding any_successor
  any_successor_rule D Q X search [] visited q k = (q, λ e. absurd (ground (arith, e)))
  any_successor_rule D Q X search (next ∷ rest) visited q k =
      let others = λ (l : List ℕ) (q' : Q l).
        any_successor_rule D Q X search rest l q'
          (λ b l' m i n q''. k b l' (ground (arith, m)) i n q'') in
      if_split (Outcome D Q X) (analysis.contains_block loop next && not (contains next visited))
        (λ e.
          Outcome-or_else D Q X _ _
            (k next visited (simp ==_self) (ground (arith, e)) (ground (arith, e)) q) others)
        (λ _. others visited q)
