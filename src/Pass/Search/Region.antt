-- ===== src/Pass/Search/Region.antt =====
-- The instructions of a function that the program does not call, such as main.
use mpi_comp_match.Base.{ℕ, ◌<◌, ◌≡◌, ◌≢◌, true, false, List, ◌&&◌, ◌==◌}
use mpi_comp_match.Pass.Llvm.{Llvm}
use mpi_comp_match.Pass.Search.{contains, get_guarding_compare, blocks_behind, next_of}

module _ (ir : Llvm) (mpi_call : ℕ) where
  -- The instructions that the search can come to, those of a function that is not called: behind
  -- each stand more instructions of its block than behind the next one, and each block that follows is
  -- one of these blocks, begins with an instruction of its own, and is longer than what is behind that.
  pub record Region (In : ℕ → Type 0) (length_from weight : ℕ → ℕ) (blocks : List ℕ) : Type 0 where
    pub begins : In (ir.get_next_node mpi_call)
    pub ended : length_from 0 ≡ 0
    pub positive : (i : ℕ) → In i → 0 < length_from i
    pub onwards : (i : ℕ) → In i → next_of ir i ≢ 0 → In (next_of ir i)
    pub shorter : (i : ℕ) → In i → next_of ir i ≢ 0 → length_from (next_of ir i) < length_from i
    pub follows :
        (i b : ℕ)
        → In i
        → contains b (blocks_behind ir (get_guarding_compare ir mpi_call) i) ≡ true
        → In (ir.get_first_non_phi b)
          × ((contains b blocks ≡ true)
              × ((ir.get_parent (ir.get_first_non_phi b) ≡ b)
                  × (length_from (ir.get_first_non_phi b) < weight b)))
    pub not_called :
        (i u : ℕ)
        → In i
        → ir.is_return i ≡ true
        → contains u (ir.users (ir.get_function i)) ≡ true
        → (ir.is_call u && ir.get_called_function u == ir.get_function i) ≡ false
