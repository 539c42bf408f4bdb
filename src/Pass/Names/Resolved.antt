-- ===== src/Pass/Names/Resolved.antt =====
-- The functions that are found are those with the names.
use mpi_comp_match.Base.{
  ℕ, String, equals, equals_iff, ◌≡◌, ◌≢◌, refl, sym, ◌∙◌, Bool, true, false, List, [], ◌∷◌, ◌||◌,
  ◌==◌, ◌⊎◌, inl, inr, Bool-cases, ==_iff, ==_self, arith, ap,
}
use mpi_comp_match.Pass.Llvm.{Llvm}
use mpi_comp_match.Pass.Functions.{MpiFunctions, is_send_function, is_recv_function}
use mpi_comp_match.Pass.Search.{contains}
use mpi_comp_match.Pass.Names.{
  Names, if_named, note_function, note_functions, no_functions, get_used_mpi_functions,
}

module _ (names : Names) where
  abbrev last_named : String → List ℕ → ℕ → ℕ
  last_named name [] old = old
  last_named name (f ∷ rest) old = last_named name rest (if_named names name f old)

  -- A field that is noted under a name.
  note_functions-last_named :
      (name : String) (field : MpiFunctions → ℕ)
      → ((f : ℕ) (r : MpiFunctions)
          → field (note_function names f r) ≡ if_named names name f (field r))
      → (l : List ℕ) (r : MpiFunctions)
      → field (note_functions names l r) ≡ last_named name l (field r)
  unfolding note_functions
  note_functions-last_named name field h [] r = refl
  note_functions-last_named name field h (f ∷ rest) r =
      note_functions-last_named name field h rest (note_function names f r)
      ∙ ap (last_named name rest) (h f r)

  abbrev pub has_name : String → ℕ → Bool
  has_name name f = equals (names.get_name f) name

  -- The last function has the name, or it is the old one and no function of the list has the name.
  abbrev IsLast : (name : String) (l : List ℕ) (old last : ℕ) → Type 0
  IsLast name l old last =
      ((contains last l ≡ true) × (has_name name last ≡ true))
      ⊎ ((last ≡ old) × ((f : ℕ) → contains f l ≡ true → has_name name f ≡ false))

  last_named-IsLast :
      (name : String) (l : List ℕ) (old : ℕ) → IsLast name l old (last_named name l old)
  last_named-IsLast name [] old = inr (refl, λ f m. absurd (ground (arith, m)))
  last_named-IsLast name (x ∷ rest) old = go (last_named-IsLast name rest _)
    where
      last : ℕ
      last = last_named name rest (if_named names name x old)

      none_of :
          has_name name x ≡ false
          → ((f : ℕ) → contains f rest ≡ true → has_name name f ≡ false)
          → (f : ℕ) → contains f (x ∷ rest) ≡ true
          → has_name name f ≡ false
      none_of unnamed none f m = elim (Bool-cases (f == x)) [
        | inl same ↦ ap (has_name name) ((==_iff f x).0 same) ∙ unnamed
        | inr other ↦ none f (ground (arith, m, other))
      ]

      go : IsLast name rest (if_named names name x old) last → IsLast name (x ∷ rest) old last
      go (inl (m, h)) = inl (ground (arith, m), h)
      go (inr (e, none)) = elim (Bool-cases (has_name name x)) [
        | inl named ↦
            let is_x : last ≡ x = e ∙ rw named refl in inl (rw is_x (simp ==_self), rw is_x named)
        | inr unnamed ↦ inr (e ∙ rw unnamed refl, none_of unnamed none)
      ]

  -- No two functions of the module have the same name.
  abbrev pub AllNamedOnce : List ℕ → Type 0
  AllNamedOnce l =
      (f g : ℕ)
      → contains f l ≡ true
      → contains g l ≡ true
      → names.get_name f ≡ names.get_name g
      → f ≡ g

  last_named_lem :
      (name : String) (l : List ℕ) (f : ℕ)
      → AllNamedOnce l
      → contains f l ≡ true
      → f ≢ 0
      → (f == last_named name l 0) ≡ has_name name f
  last_named_lem name l f once m positive = go (last_named-IsLast name l 0)
    where
      last : ℕ
      last = last_named name l 0

      go : IsLast name l 0 last → (f == last) ≡ has_name name f
      go (inl (m', h)) = elim (Bool-cases (has_name name f)) [
        | inl named ↦
            let e = once f last m m' ((equals_iff _ _).0 named ∙ sym ((equals_iff _ _).0 h)) in
            ground (arith, named, e)
        | inr unnamed ↦
            let e = λ (same : f ≡ last). ap (has_name name) same in ground (arith, unnamed, h, e)
      ]
      go (inr (e, none)) = let unnamed = none f m in ground (arith, unnamed, e, positive)

module _ (ir : Llvm) (names : Names) (once : AllNamedOnce names ir.functions) (f : ℕ)
    (member : contains f ir.functions ≡ true) (positive : f ≢ 0) where
  abbrev pub mpi : MpiFunctions
  mpi = get_used_mpi_functions ir names

  -- A function of the module is the one in the field under whose name it is.
  pub field_lem :
      (name : String) (field : MpiFunctions → ℕ)
      → ((g : ℕ) (r : MpiFunctions)
          → field (note_function names g r) ≡ if_named names name g (field r))
      → field no_functions ≡ 0
      → (f == field (note_functions names ir.functions no_functions)) ≡ has_name names name f
  field_lem name field noted null =
      let e = note_functions-last_named names name field noted ir.functions no_functions in
      let lem = last_named_lem names name ir.functions f once member positive in rw e (rw null lem)

  abbrev has_one_of : List String → Bool
  has_one_of [] = false
  has_one_of (name ∷ rest) = has_name names name f || has_one_of rest

  -- A function of the module is one that sends, or that receives, just where its name says so, if the
  -- functions of the module have different names.
  pub get_used_mpi_functions_lem :
      (is_send_function mpi f
        ≡ has_one_of (
            "MPI_Send" ∷ "MPI_Bsend" ∷ "MPI_Ssend" ∷ "MPI_Rsend" ∷ "MPI_Isend" ∷ "MPI_Ibsend"
            ∷ "MPI_Irsend" ∷ "MPI_Issend" ∷ "MPI_Sendrecv" ∷ "MPI_Send_init" ∷ []))
      × (is_recv_function mpi f
          ≡ has_one_of ("MPI_Recv" ∷ "MPI_Irecv" ∷ "MPI_Sendrecv" ∷ "MPI_Recv_init" ∷ []))
  unfolding is_send_function is_recv_function get_used_mpi_functions note_function
  get_used_mpi_functions_lem = (
    ground (
      arith,
      field_lem "MPI_Send" (λ r. r.mpi_send) (λ g r. refl) refl,
      field_lem "MPI_Bsend" (λ r. r.mpi_bsend) (λ g r. refl) refl,
      field_lem "MPI_Ssend" (λ r. r.mpi_ssend) (λ g r. refl) refl,
      field_lem "MPI_Rsend" (λ r. r.mpi_rsend) (λ g r. refl) refl,
      field_lem "MPI_Isend" (λ r. r.mpi_isend) (λ g r. refl) refl,
      field_lem "MPI_Ibsend" (λ r. r.mpi_ibsend) (λ g r. refl) refl,
      field_lem "MPI_Irsend" (λ r. r.mpi_irsend) (λ g r. refl) refl,
      field_lem "MPI_Issend" (λ r. r.mpi_issend) (λ g r. refl) refl,
      field_lem "MPI_Sendrecv" (λ r. r.mpi_sendrecv) (λ g r. refl) refl,
      field_lem "MPI_Send_init" (λ r. r.mpi_send_init) (λ g r. refl) refl,
    ),
    ground (
      arith,
      field_lem "MPI_Recv" (λ r. r.mpi_recv) (λ g r. refl) refl,
      field_lem "MPI_Irecv" (λ r. r.mpi_irecv) (λ g r. refl) refl,
      field_lem "MPI_Sendrecv" (λ r. r.mpi_sendrecv) (λ g r. refl) refl,
      field_lem "MPI_Recv_init" (λ r. r.mpi_recv_init) (λ g r. refl) refl,
    ),
  )
