-- ===== src/Pass/Search/Missed.antt =====
-- The search behind a branch of two ways, where one ends the scope of the request.
use mpi_comp_match.Base.{
  ℕ, suc, ◌≡◌, refl, subst, Bool, true, false, List, [], ◌∷◌, ◌<◌, ◌==◌, ◌||◌, some, ==_self, arith,
}
use mpi_comp_match.Pass.Llvm.{Llvm}
use mpi_comp_match.Pass.Functions.{MpiFunctions}
use mpi_comp_match.Pass.Conflicts.{Wildcards}
use mpi_comp_match.Pass.Search.{
  insert, returns, go_on, ends, get_guarding_compare, followed, add_blocks, add_exits, next_of,
  choose, advance, verdict, search_paths, check_call_for_conflict, contains, blocks_behind,
}
use mpi_comp_match.Pass.Search.Answers.{
  verdict_at, Follows, first, branch, FoundOnPath, is_no_call, gives,
}
use mpi_comp_match.Pass.Search.Ways.{blocks_behind-IsWay}

contains_second : (b : Bool) → (b || (true || false)) ≡ true
contains_second true = refl
contains_second false = refl

module _ (ir : Llvm) (mpi : MpiFunctions) (wildcards : Wildcards) (mpi_call first_ending : ℕ)
    (other_endings : List ℕ) (is_sending : Bool) where
  abbrev scope_endings : List ℕ
  scope_endings = first_ending ∷ other_endings

  -- Behind the call stands a branch of two ways that are both followed. The one at the lower address
  -- begins with an end of the scope, the other with a call that may conflict.
  pub record EndsFirst (b ending conflict : ℕ) : Type 0 where
    pub behind : ir.get_next_node mpi_call ≡ b
    pub not_null : (b == 0) ≡ false
    pub not_call : ir.is_call b ≡ false
    pub not_return : ir.is_return b ≡ false
    pub terminator : ir.is_terminator b ≡ true
    pub last : ir.get_next_node b ≡ 0
    pub ways :
        let guard = get_guarding_compare ir mpi_call in
        followed ir guard.0 guard.1 b ≡ ending ∷ conflict ∷ []
    pub positive : (ir.get_first_non_phi ending == 0) ≡ false
    pub ordered : ir.get_first_non_phi ending < ir.get_first_non_phi conflict
    pub ends_scope :
        verdict ir mpi wildcards mpi_call scope_endings is_sending (ir.get_first_non_phi ending)
        ≡ ends (returns false)
    pub conflicts :
        verdict ir mpi wildcards mpi_call scope_endings is_sending (ir.get_first_non_phi conflict)
        ≡ ends (returns true)

  module _ (b ending conflict : ℕ) (h : EndsFirst b ending conflict) where
    goes_on : verdict_at ir mpi wildcards mpi_call scope_endings is_sending b ≡ go_on
    unfolding verdict
    goes_on = simp h.not_call

    on_path : FoundOnPath ir mpi wildcards mpi_call scope_endings is_sending true
    on_path =
        let here : Follows ir mpi wildcards mpi_call scope_endings is_sending b =
          subst (Follows ir mpi wildcards mpi_call scope_endings is_sending) h.behind
            (first (λ z. ground (arith, h.behind, h.not_null, z))) in
        (
          ir.get_first_non_phi conflict,
          (
            branch conflict (is_no_call h.not_call) here
                (blocks_behind-IsWay ir mpi_call b conflict inways),
            gives ir mpi wildcards mpi_call scope_endings is_sending _ true h.conflicts,
          ),
        )
      where
        inways : contains conflict (blocks_behind ir (get_guarding_compare ir mpi_call) b) ≡ true
        inways = simp (h.terminator, h.ways, ==_self) (contains_second (conflict == ending))

    in_order :
        add_blocks ir [] (ending ∷ conflict ∷ []) []
        ≡ ir.get_first_non_phi ending ∷ ir.get_first_non_phi conflict ∷ []
    unfolding add_blocks insert
    in_order = let order = h.ordered in ground arith

    advanced :
        advance ir
          (get_guarding_compare ir mpi_call)
          (record { next_inst = b; to_check = []; already_checked = [] })
        ≡ some (record {
          next_inst = ir.get_first_non_phi ending;
          to_check = ir.get_first_non_phi conflict ∷ [];
          already_checked = insert (ir.get_parent (ir.get_first_non_phi ending)) [];
        })
    unfolding advance add_exits next_of choose
    advanced = simp (h.terminator, h.not_return, h.ways, h.last, in_order)

    -- The conflict is on a path, and yet the search returns that there is none.
    pub missed_conflict :
        (fuel : ℕ)
        → (FoundOnPath ir mpi wildcards mpi_call scope_endings is_sending true)
          × (check_call_for_conflict ir mpi wildcards mpi_call scope_endings is_sending
                (suc (suc fuel))
              ≡ returns false)
    unfolding check_call_for_conflict search_paths
    missed_conflict fuel =
        (on_path, simp (h.behind, h.not_null, goes_on, advanced, h.positive, h.ends_scope))
