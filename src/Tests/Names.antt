-- ===== src/Tests/Names.antt =====
-- A module with functions of MPI.
use mpi_comp_match.Base.{
  All, List, ◌≢◌, ◌+◌, some, ℕ, String, equals, sym, ap, ◌∙◌, ◌≡◌, refl, true, false, [], ◌∷◌, ◌==◌,
  if◌then◌else◌, arith,
}
use mpi_comp_match.Pass.Llvm.{Llvm}
use mpi_comp_match.Pass.Functions.{is_send_function, is_recv_function}
use mpi_comp_match.Pass.Search.{contains}
use mpi_comp_match.Pass.Names.{
  Names, note_function, note_functions, insert_optimized, get_used_mpi_functions, is_mpi_used,
  gather_all_calls,
}
use mpi_comp_match.Pass.Names.Resolved.{AllNamedOnce, get_used_mpi_functions_lem}
use mpi_comp_match.Pass.Scopes.Relation.{All-found}
use mpi_comp_match.Pass.Replacement.{add_init, add_finalize}
use mpi_comp_match.Pass.Select.{Changes, run_on_module}
use mpi_comp_match.Pass.Select.Named.{IsRenamed, run_on_module-IsRenamed}
use mpi_comp_match.Tests.Pass.{pass_opened}
use mpi_comp_match.Tests.Program.{program, indexing, wildcards}

abbrev name_of : ℕ → String
name_of f =
    if f == 4
    then "MPI_Send"
    else (if f == 6 then "MPI_Irecv" else (if f == 7 then "MPI_Wait" else "main"))

-- A function that is inserted for another one has its number and 100.
abbrev names : Names
names = record {
  get_name = name_of;
  get_or_insert_function = λ name f. if f == 7 then 107 else 100;
}

abbrev named : Llvm
named = record program { functions = 9 ∷ 4 ∷ 6 ∷ 7 ∷ [] }

finds_wait : (get_used_mpi_functions named names).optimized.mpi_wait ≡ 107
unfolding get_used_mpi_functions note_functions note_function insert_optimized
finds_wait = refl

no_mpi_init : is_mpi_used named (get_used_mpi_functions named names) ≡ false
unfolding get_used_mpi_functions note_functions note_function insert_optimized is_mpi_used
no_mpi_init = refl

gathers_call : gather_all_calls named 2 ≡ 20 ∷ []
unfolding gather_all_calls
gathers_call = refl

abbrev number_of : String → ℕ
number_of s =
    if equals s "MPI_Send"
    then 4
    else (if equals s "MPI_Irecv" then 6 else (if equals s "MPI_Wait" then 7 else 9))

numbered : All (λ f. number_of (name_of f) ≡ f) named.functions
numbered = (refl, (refl, (refl, (refl, tt))))

named-AllNamedOnce : AllNamedOnce names named.functions
named-AllNamedOnce f g m n e =
    sym (All-found (λ h. number_of (name_of h) ≡ h) f named.functions numbered m)
    ∙ ap number_of e
    ∙ All-found (λ h. number_of (name_of h) ≡ h) g named.functions numbered n

get_used_mpi_functions_example :
    (is_send_function (get_used_mpi_functions named names) 4 ≡ true)
    × (is_recv_function (get_used_mpi_functions named names) 4 ≡ false)
get_used_mpi_functions_example =
    get_used_mpi_functions_lem named names named-AllNamedOnce 4 refl (λ e. ground (arith, e))

-- The small program with the names of its functions.
abbrev labels : List (ℕ × String)
labels =
    (1, "MPI_Finalize")
    ∷ (2, "MPI_Send_init")
    ∷ (3, "MPI_Request_free")
    ∷ (5, "MPI_Recv_init")
    ∷ (6, "MPI_Isend")
    ∷ (8, "unknown")
    ∷ (9, "main")
    ∷ (10, "sends")
    ∷ []

abbrev label : List (ℕ × String) → ℕ → String
label [] f = ""
label ((g, name) ∷ rest) f = if f == g then name else label rest f

abbrev labelled : List (ℕ × String) → String → ℕ
labelled [] s = 0
labelled ((g, name) ∷ rest) s = if equals s name then g else labelled rest s

abbrev small : Llvm
small = record program { functions = 1 ∷ 2 ∷ 3 ∷ 5 ∷ 6 ∷ 8 ∷ 9 ∷ 10 ∷ [] }

abbrev small_names : Names
small_names = record { get_name = label labels; get_or_insert_function = λ name f. f + 10 }

small-numbered : All (λ f. labelled labels (label labels f) ≡ f) small.functions
small-numbered = (refl, (refl, (refl, (refl, (refl, (refl, (refl, (refl, tt))))))))

small-AllNamedOnce : AllNamedOnce small_names small.functions
small-AllNamedOnce f g m n e =
    sym (All-found (λ h. labelled labels (label labels h) ≡ h) f small.functions small-numbered m)
    ∙ ap (labelled labels) e
    ∙ All-found (λ h. labelled labels (label labels h) ≡ h) g small.functions small-numbered n

small_closed :
    (c : ℕ)
    → small.get_called_function c ≢ 0
    → contains (small.get_called_function c) small.functions ≡ true
small_closed c h = ground (arith, h)

abbrev changes : Changes
changes = record {
  replaced = (20, 12) ∷ (26, 15) ∷ (30, 13) ∷ (36, 13) ∷ [];
  inits = [];
  finalizes = [];
}

runs :
    run_on_module small indexing (get_used_mpi_functions small small_names) wildcards 3
    ≡ some changes
unfolding pass_opened add_init add_finalize get_used_mpi_functions note_functions note_function
    insert_optimized
runs = refl

run_on_module-IsRenamed_example :
    All (IsRenamed small small_names small-AllNamedOnce small_closed) changes.replaced
run_on_module-IsRenamed_example =
    run_on_module-IsRenamed small small_names small-AllNamedOnce small_closed indexing wildcards 3
      changes runs
