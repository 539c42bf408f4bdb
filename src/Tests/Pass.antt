-- ===== src/Tests/Pass.antt =====
-- The pass on the small program.
use mpi_comp_match.Base.{
  ◌⊎◌, inl, ◌<◌, ◌==◌, if◌then◌else◌, ◌≢◌, ℕ, ◌≡◌, refl, true, false, List, [], ◌∷◌, some, inr,
  arith,
}
use mpi_comp_match.Pass.Llvm.{Llvm}
use mpi_comp_match.Pass.Functions.{is_mpi_function, is_mpi_call, is_send_function, is_recv_function}
use mpi_comp_match.Pass.Metadata.{any_of, is_trusted, analyze, find, may_conflict, is_unknown}
use mpi_comp_match.Pass.Arguments.{kind_of, get_communicator, get_src, get_tag}
use mpi_comp_match.Pass.Conflicts.{are_calls_conflicting}
use mpi_comp_match.Pass.Conflicts.Sound.{Execution, are_calls_conflicting_complete}
use mpi_comp_match.Pass.Search.{
  blocks_behind, contains, insert, returns, out_of_fuel, guard_from, get_guarding_compare, followed,
  add_blocks, add_returns, add_exits, next_of, choose, advance, verdict, search_paths,
  check_call_for_conflict,
}
use mpi_comp_match.Pass.Search.Answers.{FoundOnPath, check_call_for_conflict-FoundOnPath}
use mpi_comp_match.Pass.Search.Region.{Region}
use mpi_comp_match.Pass.Search.Terminates.{check_call_for_conflict-ends}
use mpi_comp_match.Pass.Search.Missed.{EndsFirst, missed_conflict}
use mpi_comp_match.Pass.Search.Recursion.{
  IsReturn, ReturnsToItself, check_call_for_conflict-diverges,
}
use mpi_comp_match.Pass.Replacement.{
  add_init, add_finalize, classify_use, gather_uses, get_usage_of_request, insert_all,
  gather_all_uses, optimized_function, replace_call, replace_each, replace_communication_calls,
}
use mpi_comp_match.Pass.Replacement.Exact.{IsExact, replace_communication_calls_lem}
use mpi_comp_match.Pass.Scopes.{frees_of, finalize_calls, get_corresponding_free, get_scope_endings}
use mpi_comp_match.Pass.Select.{
  Changes, calls_among, init_calls, check_mpi_conflicts, remove_conflicting, run_on_module,
}
use mpi_comp_match.Pass.Select.Origin.{HasOrigin, run_on_module-HasOrigin}
use mpi_comp_match.Tests.Program.{functions, indexing, wildcards, program, at, lists_at}

-- Opens what the search runs.
unfoldable pub search_opened : Unit {0}
unfolding is_mpi_function is_mpi_call is_send_function is_recv_function any_of is_trusted analyze
    find may_conflict is_unknown insert guard_from get_guarding_compare followed add_blocks
    add_returns add_exits next_of choose advance verdict search_paths check_call_for_conflict
search_opened = tt

-- Opens what the replacement runs.
unfoldable pub pass_opened : Unit {0}
unfolding search_opened classify_use gather_uses get_usage_of_request insert_all gather_all_uses
    optimized_function replace_call replace_each replace_communication_calls frees_of finalize_calls
    get_corresponding_free get_scope_endings calls_among init_calls check_mpi_conflicts
    remove_conflicting run_on_module
pass_opened = tt

returns_false :
    check_call_for_conflict program functions wildcards 20 (30 ∷ []) true 3 ≡ returns false
unfolding search_opened
returns_false = refl

check_call_for_conflict-FoundOnPath_example :
    FoundOnPath program functions wildcards 20 (30 ∷ []) true false
check_call_for_conflict-FoundOnPath_example =
    check_call_for_conflict-FoundOnPath program functions wildcards 20 (30 ∷ []) true 3 false
      returns_false

program-EndsFirst : EndsFirst program functions wildcards 20 30 [] true 21 101 102
unfolding search_opened
program-EndsFirst = record {
  behind = refl;
  not_null = refl;
  not_call = refl;
  not_return = refl;
  terminator = refl;
  last = refl;
  ways = refl;
  positive = refl;
  ordered = omega arith;
  ends_scope = refl;
  conflicts = refl;
}

missed_conflict_example :
    (FoundOnPath program functions wildcards 20 (30 ∷ []) true true)
    × (check_call_for_conflict program functions wildcards 20 (30 ∷ []) true 2 ≡ returns false)
missed_conflict_example =
    missed_conflict program functions wildcards 20 30 [] true 21 101 102 program-EndsFirst 0

-- Behind the creation stands one return of the function 9, and behind the call 24 of it another.
abbrev recursive : Llvm
recursive = record program {
  users = lists_at ((9, 24 ∷ []) ∷ []);
  get_next_node = at ((20, 11) ∷ (24, 10) ∷ []);
  is_return = λ i. contains i (10 ∷ 11 ∷ []);
  is_terminator = λ i. contains i (10 ∷ 11 ∷ []);
}

first-IsReturn : IsReturn recursive 9 11
first-IsReturn = record {
  positive = omega arith;
  function = refl;
  terminator = refl;
  returns = refl;
  not_call = refl;
  not_branch = refl;
  last = refl;
  no_successors = refl;
}

recursive-ReturnsToItself : ReturnsToItself recursive 9 10
recursive-ReturnsToItself = record {
  return = record {
    positive = omega arith;
    function = refl;
    terminator = refl;
    returns = refl;
    not_call = refl;
    not_branch = refl;
    last = refl;
    no_successors = refl;
  };
  call = 24;
  is_call = refl;
  behind = refl;
  used = refl;
  later = λ u e. ground (arith, e);
}

check_call_for_conflict-diverges_example :
    check_call_for_conflict recursive functions wildcards 20 (30 ∷ []) true 1000 ≡ out_of_fuel
check_call_for_conflict-diverges_example =
    check_call_for_conflict-diverges recursive functions wildcards 20 30 [] true 9 10
      recursive-ReturnsToItself 11 refl first-IsReturn 1000

-- Each value has its own number, and nothing is known to be unequal.
program-Execution : Execution program (λ v. v)
program-Execution = record {
  constants = λ a b ca cb e. e;
  evolutions = λ a b e. absurd (ground (arith, e));
}

are_calls_conflicting_complete_example :
    are_calls_conflicting program functions wildcards 50 51 true ≡ some true
unfolding kind_of get_communicator get_src get_tag
are_calls_conflicting_complete_example =
    are_calls_conflicting_complete program (λ v. v) program-Execution functions wildcards 50 51 true
      85 85 83 83 84 84 refl refl refl refl refl refl refl refl refl refl (inr (inr refl))
      (inr (inr refl))

abbrev replaced : List (ℕ × ℕ)
replaced = (20, 12) ∷ (26, 15) ∷ (30, 13) ∷ (36, 13) ∷ []

replaces : replace_communication_calls program functions (20 ∷ []) (26 ∷ []) ≡ some replaced
unfolding pass_opened
replaces = refl

replace_communication_calls_example : IsExact program functions (20 ∷ []) (26 ∷ []) replaced
replace_communication_calls_example =
    replace_communication_calls_lem program functions (20 ∷ []) (26 ∷ []) replaced replaces

abbrev changes : Changes
changes = record { replaced = replaced; inits = []; finalizes = [] }

runs : run_on_module program indexing functions wildcards 3 ≡ some changes
unfolding pass_opened add_init add_finalize
runs = refl

run_on_module-HasOrigin_example : HasOrigin program indexing functions wildcards 3 36
run_on_module-HasOrigin_example =
    run_on_module-HasOrigin program indexing functions wildcards 3 changes 36 runs refl

-- The branch behind the creation, and the first instructions of its two ways.
abbrev Behind : ℕ → Type 0
Behind i = contains i (21 ∷ 30 ∷ 40 ∷ []) ≡ true

abbrev Way : ℕ → Type 0
Way b =
    Behind (program.get_first_non_phi b)
    × ((contains b (101 ∷ 102 ∷ []) ≡ true)
        × ((program.get_parent (program.get_first_non_phi b) ≡ b)
            × ((if program.get_first_non_phi b == 0 then 0 else 1) < 2)))

ways : (b : ℕ) → (b ≡ 101) ⊎ (b ≡ 102) → Way b
ways b (inl e) = rw e (refl, (refl, (refl, omega arith)))
ways b (inr e) = rw e (refl, (refl, (refl, omega arith)))

two_ways :
    (i b : ℕ)
    → Behind i
    → contains b (blocks_behind program (get_guarding_compare program 20) i) ≡ true
    → (b ≡ 101) ⊎ (b ≡ 102)
unfolding search_opened
two_ways i b h m = ground (arith, h, m)

program-Region : Region program 20 Behind (λ i. if i == 0 then 0 else 1) (λ b. 2) (101 ∷ 102 ∷ [])
unfolding search_opened
program-Region = record {
  begins = refl;
  ended = refl;
  positive = λ i h. ground (arith, h);
  onwards = λ i h n. absurd (ground (arith, h, n));
  shorter = λ i h n. absurd (ground (arith, h, n));
  follows = λ i b h m. ways b (two_ways i b h m);
  not_called = λ i u h r m. ground (arith, h, r);
}

check_call_for_conflict-ends_example :
    check_call_for_conflict program functions wildcards 20 (30 ∷ []) true 6 ≢ out_of_fuel
check_call_for_conflict-ends_example =
    check_call_for_conflict-ends program functions wildcards 20 30 [] true Behind
      (λ i. if i == 0 then 0 else 1) (λ b. 2) (101 ∷ 102 ∷ []) program-Region 6 (omega arith)
