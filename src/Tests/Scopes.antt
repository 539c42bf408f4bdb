-- ===== src/Tests/Scopes.antt =====
-- The waits of a request in an array, and the ends of a persistent request.
use mpi_comp_match.Base.{◌≡◌, refl, true, [], ◌∷◌, some, ◌==◌, if◌then◌else◌, ltb, pos, ◌-◌}
use mpi_comp_match.Pass.Llvm.{Llvm}
use mpi_comp_match.Pass.Search.{contains}
use mpi_comp_match.Pass.Scopes.{
  Indexing, frees_of, finalize_calls, waits_of, is_waitall_matching, matches_from, uses_of_element,
  uses_at, get_matching_waitall, request_operand, get_corresponding_wait, get_corresponding_free,
  get_scope_endings,
}
use mpi_comp_match.Pass.Scopes.Waits.{EndsScope, get_scope_endings-EndsScope}
use mpi_comp_match.Pass.Scopes.Release.{IsScope, get_scope_endings-IsScope}
use mpi_comp_match.Tests.Program.{program, functions, at, lists_at}

unfoldable scopes_opened : Unit {0}
unfolding frees_of finalize_calls waits_of is_waitall_matching matches_from uses_of_element uses_at
    get_matching_waitall request_operand get_corresponding_wait get_corresponding_free
    get_scope_endings
scopes_opened = tt

-- 60 sends with the request 92, the element 2 of the array 93. 61 waits for the elements 1 to 2 by
-- the pointer 94, 62 for the element 0 only, and 63 is a call of MPI_Finalize. 64 creates a request
-- in the variable 95, which 65 frees. The constants 200 to 209 are 0 to 9.
abbrev waiting : Llvm
waiting = record program {
  users = lists_at (
      (93, 92 ∷ 62 ∷ 94 ∷ [])
      ∷ (94, 61 ∷ [])
      ∷ (92, 60 ∷ [])
      ∷ (95, 64 ∷ 65 ∷ [])
      ∷ (1, 63 ∷ [])
      ∷ []);
  is_call = λ i. contains i (60 ∷ 61 ∷ 62 ∷ 63 ∷ 64 ∷ 65 ∷ []);
  is_alloca = λ v. contains v (93 ∷ 95 ∷ []);
  get_called_function = at ((60, 6) ∷ (61, 14) ∷ (62, 14) ∷ (63, 1) ∷ (64, 2) ∷ (65, 3) ∷ []);
  get_num_arg_operands = at ((60, 7) ∷ (61, 3) ∷ (62, 3) ∷ (63, 0) ∷ (64, 7) ∷ (65, 1) ∷ []);
  get_arg_operand =
      λ i k. if i == 60 then 92 else (if i == 61 then 202 else (if i == 62 then 201 else 95));
}

abbrev elements : Indexing
elements = record {
  is_get_element_ptr = λ v. contains v (92 ∷ 94 ∷ []);
  is_in_bounds = λ v. true;
  get_pointer_operand = λ v. 93;
  has_all_constant_indices = λ v. true;
  indices = lists_at ((92, 200 ∷ 202 ∷ []) ∷ (94, 200 ∷ 201 ∷ []) ∷ []);
  is_constant_int = λ v. ltb 199 v;
  get_sext_value = λ v. pos (v - 200);
  zero_like = λ v. 200;
}

waits_found : get_scope_endings waiting elements functions 60 ≡ some (61 ∷ 63 ∷ [])
unfolding scopes_opened
waits_found = refl

get_scope_endings-EndsScope_example : EndsScope waiting elements functions 60 61
get_scope_endings-EndsScope_example =
    get_scope_endings-EndsScope waiting elements functions (λ i. refl) 60 61 (61 ∷ 63 ∷ []) refl
      waits_found refl

frees_found : get_scope_endings waiting elements functions 64 ≡ some (65 ∷ 63 ∷ [])
unfolding scopes_opened
frees_found = refl

get_scope_endings-IsScope_example : IsScope waiting functions 95 (65 ∷ 63 ∷ [])
get_scope_endings-IsScope_example =
    get_scope_endings-IsScope waiting functions elements 64 (65 ∷ 63 ∷ []) refl refl refl
      frees_found
