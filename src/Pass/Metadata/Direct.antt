-- ===== src/Pass/Metadata/Direct.antt =====
-- What is known of a function, in terms of its own instructions.
use mpi_comp_match.Base.{
  ℕ, ◌≡◌, refl, Bool, true, false, List, [], ◌∷◌, none, some, ◌||◌, ◌&&◌, not, if◌then◌else◌, arith,
}
use mpi_comp_match.Pass.Llvm.{Llvm}
use mpi_comp_match.Pass.Functions.{MpiFunctions, is_mpi_call}
use mpi_comp_match.Pass.Metadata.{
  any_of, communicates, is_trusted, analyze, find, may_conflict, is_unknown,
}
use mpi_comp_match.Pass.Search.{contains, go_on, ends, returns, verdict}
use mpi_comp_match.Pass.Conflicts.{Wildcards}

either : (b : Bool) → (if b && false || b && false then ends (returns true) else go_on) ≡ go_on
either true = refl
either false = refl

module _ (ir : Llvm) (mpi : MpiFunctions) (f : ℕ) where
  found : (l : List ℕ) → find ir mpi l f ≡ (if contains f l then some (analyze ir mpi f) else none)
  unfolding find
  found [] = refl
  found (g ∷ rest) = grind (arith, found rest)

  -- A function is taken to conflict if it is not of the module, or if it is not one of those that
  -- are trusted and is only declared or sends or receives itself; it is unknown if it is not of the
  -- module or, not one of the trusted, is only declared.
  may_conflict_lem :
      (may_conflict ir mpi f ≡ (
        not (contains f ir.functions)
        || (not (is_trusted ir mpi f)
            && (ir.is_declaration f || any_of (communicates ir mpi) (ir.instructions f)))))
      × (is_unknown ir mpi f
          ≡ (not (contains f ir.functions) || (not (is_trusted ir mpi f) && ir.is_declaration f)))
  unfolding may_conflict is_unknown analyze
  may_conflict_lem = (grind (arith, found ir.functions), grind (arith, found ir.functions))

module _ (ir : Llvm) (mpi : MpiFunctions) (wildcards : Wildcards) (mpi_call : ℕ)
    (scope_endings : List ℕ) (is_sending : Bool) where
  -- A call of a function of the module that does not itself send or receive lets the search go on
  -- behind it, whatever is in the functions that it calls.
  verdict-indirect :
      (i : ℕ)
      → ir.is_call i ≡ true
      → is_mpi_call ir i ≡ false
      → contains (ir.get_called_function i) ir.functions ≡ true
      → ir.is_declaration (ir.get_called_function i) ≡ false
      → any_of (communicates ir mpi) (ir.instructions (ir.get_called_function i)) ≡ false
      → verdict ir mpi wildcards mpi_call scope_endings is_sending i ≡ go_on
  unfolding verdict
  verdict-indirect i call other defined declared silent =
      let known = may_conflict_lem ir mpi (ir.get_called_function i) in
      simp (call, other, known.0, known.1, defined, declared, silent)
        (either (not (is_trusted ir mpi (ir.get_called_function i))))
