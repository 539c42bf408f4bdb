-- ===== src/Pass/Metadata.antt =====
-- function_coverage.cpp: what is known of each function before the search.
pub mod Direct
use mpi_comp_match.Base.{
  ℕ, Bool, true, false, List, [], ◌∷◌, Option, none, some, ◌&&◌, ◌||◌, not, ◌==◌, if◌then◌else◌,
}
use mpi_comp_match.Pass.Llvm.{Llvm}
use mpi_comp_match.Pass.Functions.{
  MpiFunctions, is_mpi_function, is_mpi_call, is_send_function, is_recv_function,
}

pub record Info : Type 0 where
  pub unknown : Bool
  pub has_mpi : Bool
  pub has_sync : Bool
  pub may_conflict : Bool

abbrev pub nothing : Info
nothing = record { unknown = false; has_mpi = false; has_sync = false; may_conflict = false }

unfoldable pub any_of : (ℕ → Bool) → List ℕ → Bool
any_of test [] = false
any_of test (i ∷ rest) = test i || any_of test rest

module _ (ir : Llvm) (mpi : MpiFunctions) where
  abbrev pub is_mpi_call_inst : ℕ → Bool
  is_mpi_call_inst i = ir.is_call i && is_mpi_call ir i

  -- A call of a function of MPI that sends or receives.
  abbrev pub communicates : ℕ → Bool
  communicates i =
      let f = ir.get_called_function i in
      is_mpi_call_inst i && (is_send_function mpi f || is_recv_function mpi f)

  -- The functions that are taken to contain no communication.
  unfoldable pub is_trusted : ℕ → Bool
  is_trusted f = ir.is_no_return f || ir.is_intrinsic f || ir.is_lib_func f || is_mpi_function ir f

  unfoldable pub analyze : ℕ → Info
  analyze f =
      if is_trusted f
      then nothing
      else (if ir.is_declaration f then record nothing { unknown = true } else record nothing {
        has_mpi = any_of is_mpi_call_inst (ir.instructions f);
        may_conflict = any_of communicates (ir.instructions f);
      })

  unfoldable pub find : List ℕ → ℕ → Option Info
  find [] f = none
  find (g ∷ rest) f = if g == f then some (analyze g) else find rest f

-- The queries; a function that is not in the map is taken for the worst.
abbrev pub or_worst : Bool → (Info → Bool) → Option Info → Bool
or_worst worst query none = worst
or_worst worst query (some info) = query info

module _ (ir : Llvm) (mpi : MpiFunctions) (f : ℕ) where
  unfoldable pub has_mpi : Bool
  has_mpi = or_worst true (λ info. info.unknown || info.has_mpi) (find ir mpi ir.functions f)

  unfoldable pub may_conflict : Bool
  may_conflict =
      or_worst true (λ info. info.unknown || info.may_conflict) (find ir mpi ir.functions f)

  unfoldable pub will_sync : Bool
  will_sync =
      or_worst false (λ info. not info.unknown && info.has_sync) (find ir mpi ir.functions f)

  unfoldable pub is_unknown : Bool
  is_unknown = or_worst true (λ info. info.unknown) (find ir mpi ir.functions f)
