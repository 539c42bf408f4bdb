-- ===== src/Pass/Names/Renamed.antt =====
-- What the calls that the pass replaces are, and what they become, by the names of the functions.
use mpi_comp_match.Base.{
  ℕ, String, equals_iff, ◌≡◌, ◌≢◌, refl, sym, ◌∙◌, true, ◌==◌, ==_iff, arith, ap,
}
use mpi_comp_match.Pass.Checked.{Ensured}
use mpi_comp_match.Pass.Llvm.{Llvm}
use mpi_comp_match.Pass.Functions.{MpiFunctions}
use mpi_comp_match.Pass.Search.{contains}
use mpi_comp_match.Pass.Search.Paths.{if_split}
use mpi_comp_match.Pass.Names.{
  Names, if_named, note_function, note_functions, no_functions, insert_optimized, optimized_version,
  get_used_mpi_functions,
}
use mpi_comp_match.Pass.Names.Resolved.{AllNamedOnce, field_lem}
use mpi_comp_match.Pass.Replacement.{optimized_function}

-- The functions of MPI and those of the library that take their places.
pub data Renames : (original optimized : String) → Type 0 where
  wait : Renames "MPI_Wait" "MPIOPT_Wait"
  start : Renames "MPI_Start" "MPIOPT_Start"
  request_free : Renames "MPI_Request_free" "MPIOPT_Request_free"
  send_init : Renames "MPI_Send_init" "MPIOPT_Send_init"
  recv_init : Renames "MPI_Recv_init" "MPIOPT_Recv_init"

module _ (ir : Llvm) (names : Names) (once : AllNamedOnce names ir.functions) where
  -- The function has one of these names, and the other has been inserted under its counterpart.
  abbrev pub Counterpart : (f g : ℕ) → Type 0
  Counterpart f g =
      (original : String) × ((optimized : String) × (Renames original optimized
          × ((names.get_name f ≡ original) × (g ≡ names.get_or_insert_function optimized f))))

  abbrev mpi : MpiFunctions
  mpi = get_used_mpi_functions ir names

  counterpart :
      (f g : ℕ) (original optimized : String) (field : MpiFunctions → ℕ)
      → contains f ir.functions ≡ true
      → f ≢ 0
      → Renames original optimized
      → ((g' : ℕ) (r : MpiFunctions)
          → field (note_function names g' r) ≡ if_named names original g' (field r))
      → field no_functions ≡ 0
      → (f == field (note_functions names ir.functions no_functions)) ≡ true
      → g
        ≡ optimized_version names optimized (field (note_functions names ir.functions no_functions))
      → Counterpart f g
  counterpart f g original optimized field member positive renames noted null same e =
      let named = field_lem ir names once f member positive original field noted null in
      let is = (==_iff f _).0 same in
      let inserted = e ∙ ap (optimized_version names optimized) (sym is) in
      (
        original,
        (
          optimized,
          (renames, ((equals_iff _ _).0 (sym named ∙ same), ground (arith, inserted, positive))),
        ),
      )

  module _ (f : ℕ) (member : contains f ir.functions ≡ true) (positive : f ≢ 0) where
    -- The branches of the replacement.
    pub optimized_function-Counterpart : Ensured (Counterpart f) (optimized_function ir mpi f)
    unfolding optimized_function get_used_mpi_functions insert_optimized note_function
    optimized_function-Counterpart =
        if_split (Ensured (Counterpart f)) (f == mpi.mpi_wait)
          (λ e.
            counterpart f _ "MPI_Wait" "MPIOPT_Wait" (λ r. r.mpi_wait) member positive wait
              (λ g r. refl) refl e refl)
          (λ _.
            if_split (Ensured (Counterpart f)) (f == mpi.mpi_start)
              (λ e.
                counterpart f _ "MPI_Start" "MPIOPT_Start" (λ r. r.mpi_start) member positive start
                  (λ g r. refl) refl e refl)
              (λ _.
                if_split (Ensured (Counterpart f)) (f == mpi.mpi_request_free)
                  (λ e.
                    counterpart f _ "MPI_Request_free" "MPIOPT_Request_free"
                      (λ r. r.mpi_request_free) member positive request_free (λ g r. refl) refl e
                      refl)
                  (λ _.
                    if_split (Ensured (Counterpart f)) (f == mpi.mpi_send_init)
                      (λ e.
                        counterpart f _ "MPI_Send_init" "MPIOPT_Send_init" (λ r. r.mpi_send_init)
                          member positive send_init (λ g r. refl) refl e refl)
                      (λ _.
                        if_split (Ensured (Counterpart f)) (f == mpi.mpi_recv_init)
                          (λ e.
                            counterpart f _ "MPI_Recv_init" "MPIOPT_Recv_init"
                              (λ r. r.mpi_recv_init) member positive recv_init (λ g r. refl) refl e
                              refl)
                          (λ _. tt)))))
