-- ===== src/Pass/Conflicts/Sound.antt =====
-- What `are_calls_conflicting` says of two calls that can match, and of a call that creates a
-- persistent request.
use mpi_comp_match.Base.{
  ℕ, ◌≡◌, ◌≢◌, Bool, true, false, List, [], ◌∷◌, none, some, ◌⊎◌, inl, inr, arith,
}
use mpi_comp_match.Pass.Llvm.{Llvm}
use mpi_comp_match.Pass.Functions.{MpiFunctions}
use mpi_comp_match.Pass.Arguments.{get_communicator, get_src, get_tag, kind_of, unsupported}
use mpi_comp_match.Pass.Conflicts.{
  Wildcards, can_prove_val_different_respecting_loops, can_prove_val_different, can_prove_unmatched,
  are_calls_conflicting,
}
use mpi_comp_match.Pass.Search.{contains}

-- The numbers that values have in an execution of the program: constants are unique, and the
-- analysis of scalar evolutions is right where it knows two values to be unequal.
pub record Execution (ir : Llvm) (number : ℕ → ℕ) : Type 0 where
  pub constants :
      (a b : ℕ) → ir.is_constant a ≡ true → ir.is_constant b ≡ true → number a ≡ number b → a ≡ b
  pub evolutions : (a b : ℕ) → ir.is_known_unequal a b ≡ true → number a ≢ number b

module _ (ir : Llvm) (number : ℕ → ℕ) (run : Execution ir number) where
  unknown :
      (a b : ℕ) → number a ≡ number b → can_prove_val_different_respecting_loops ir a b ≡ false
  unfolding can_prove_val_different_respecting_loops
  unknown a b e = ground (arith, run.evolutions a b, run.evolutions b a)

  not_different :
      (a b : ℕ)
      → ir.same_type a b ≡ true
      → number a ≡ number b
      → can_prove_val_different ir a b ≡ some false
  unfolding can_prove_val_different
  not_different a b type e = ground (arith, type, unknown a b e, run.constants a b)

  -- The values are equal, or one of them is the wildcard.
  abbrev pub Matches : (wildcard a b : ℕ) → Type 0
  Matches wildcard a b = (a ≡ wildcard) ⊎ ((b ≡ wildcard) ⊎ (number a ≡ number b))

  not_unmatched :
      (wildcard a b : ℕ)
      → ir.same_type a b ≡ true
      → Matches wildcard a b
      → can_prove_unmatched ir wildcard a b ≡ some false
  unfolding can_prove_unmatched
  not_unmatched wildcard a b type (inl e) = ground arith
  not_unmatched wildcard a b type (inr (inl e)) = ground arith
  not_unmatched wildcard a b type (inr (inr e)) = ground (arith, not_different a b type e)

  -- Two calls of the same communicator whose partners and tags match, by their values or by a
  -- wildcard, are found to be in conflict: neither is it missed, nor does an assertion fail, where
  -- the arguments can be read and have the same types.
  pub are_calls_conflicting_complete :
      (mpi : MpiFunctions) (wildcards : Wildcards) (orig_call conflict_call : ℕ) (is_send : Bool)
      (comm1 comm2 src1 src2 tag1 tag2 : ℕ)
      → get_communicator ir mpi orig_call ≡ some comm1
      → get_communicator ir mpi conflict_call ≡ some comm2
      → get_src ir mpi orig_call is_send ≡ some src1
      → get_src ir mpi conflict_call is_send ≡ some src2
      → get_tag ir mpi orig_call is_send ≡ some tag1
      → get_tag ir mpi conflict_call is_send ≡ some tag2
      → ir.same_type comm1 comm2 ≡ true
      → ir.same_type src1 src2 ≡ true
      → ir.same_type tag1 tag2 ≡ true
      → number comm1 ≡ number comm2
      → Matches wildcards.any_source src1 src2
      → Matches wildcards.any_tag tag1 tag2
      → are_calls_conflicting ir mpi wildcards orig_call conflict_call is_send ≡ some true
  unfolding are_calls_conflicting
  are_calls_conflicting_complete mpi wildcards orig_call conflict_call is_send comm1 comm2 src1 src2
        tag1 tag2 c1 c2 s1 s2 t1 t2 ct st tt' ce sm tm =
      simp (
        c1,
        c2,
        s1,
        s2,
        t1,
        t2,
        not_different comm1 comm2 ct ce,
        not_unmatched wildcards.any_source src1 src2 st sm,
        not_unmatched wildcards.any_tag tag1 tag2 tt' tm,
      )

module _ (ir : Llvm) (mpi : MpiFunctions) (wildcards : Wildcards) where
  -- The functions whose arguments can be read.
  abbrev pub readable : List ℕ
  readable =
      mpi.mpi_send ∷ mpi.mpi_bsend ∷ mpi.mpi_ssend ∷ mpi.mpi_rsend ∷ mpi.mpi_isend ∷ mpi.mpi_recv
      ∷ mpi.mpi_irecv ∷ mpi.mpi_sendrecv ∷ []

  unreadable :
      (call : ℕ)
      → contains (ir.get_called_function call) readable ≡ false
      → kind_of ir mpi call ≡ unsupported
  unfolding kind_of
  unreadable call h = ground arith

  -- Where the first call is of another function, as MPI_Send_init and MPI_Recv_init are, the test
  -- fails at an assertion, whatever the second call.
  pub are_calls_conflicting-fails :
      (orig_call conflict_call : ℕ) (is_send : Bool)
      → contains (ir.get_called_function orig_call) readable ≡ false
      → are_calls_conflicting ir mpi wildcards orig_call conflict_call is_send ≡ none
  unfolding are_calls_conflicting get_communicator
  are_calls_conflicting-fails orig_call conflict_call is_send h = simp (unreadable orig_call h)
