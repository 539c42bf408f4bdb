-- ===== src/Pass/Scopes/Elements.antt =====
-- The calls that wait for an element of an array.
use mpi_comp_match.Base.{
  ℕ, is_zeroℤ, ◌≡◌, refl, sym, ◌∙◌, Bool, true, false, List, [], ◌∷◌, ◌++◌, ◌&&◌, ◌==◌,
  if◌then◌else◌, All, ==_self, ==_iff, arith, ap, pos,
}
use mpi_comp_match.Pass.Checked.{Checked, ◌>>=◌, pure, Ensured, Ensured-assert, Ensured-bind}
use mpi_comp_match.Pass.Llvm.{Llvm}
use mpi_comp_match.Pass.Functions.{MpiFunctions}
use mpi_comp_match.Pass.Search.{contains}
use mpi_comp_match.Pass.Search.Paths.{if_split}
use mpi_comp_match.Pass.Scopes.{
  Indexing, covers, is_call_of, is_waitall_matching, matches_from, uses_of_element, uses_at,
  get_matching_waitall,
}
use mpi_comp_match.Pass.Scopes.Relation.{
  All-append, is_zeroℤ_lem, Uses, base, element, WaitsFor, one_of, all_of, HasZeros,
}

module _ (ir : Llvm) (indexing : Indexing) (mpi : MpiFunctions) where
  module _ (zeros : HasZeros ir indexing mpi) (req i0 index : ℕ)
      (structure : indexing.indices req ≡ i0 ∷ index ∷ [])
      (first : indexing.get_sext_value i0 ≡ pos 0) where
    abbrev AllWait : Checked (List ℕ) → Type 0
    AllWait = Ensured (All (WaitsFor ir indexing mpi req))

    abbrev Matching : (begin_index call : ℕ) → Bool → Type 0
    Matching begin_index call matching =
        matching ≡ true
        → (is_call_of ir mpi.mpi_waitall call ≡ true)
          × ((indexing.is_constant_int (ir.get_arg_operand call 0) ≡ true)
              × (covers (indexing.get_sext_value begin_index)
                    (indexing.get_sext_value (ir.get_arg_operand call 0))
                    (indexing.get_sext_value index)
                  ≡ true))

    is_waitall_matching-Matching :
        (begin_index call : ℕ)
        → ir.is_call call ≡ true
        → Ensured (Matching begin_index call) (
            if ir.get_called_function call == mpi.mpi_waitall
            then is_waitall_matching ir indexing mpi begin_index index call
            else pure false)
    unfolding is_waitall_matching
    is_waitall_matching-Matching begin_index call h =
        if_split (Ensured (Matching begin_index call))
          (ir.get_called_function call == mpi.mpi_waitall)
          (λ e. Ensured-assert _ (ir.same_type begin_index index) _ (
            Ensured-assert _ (ir.get_called_function call == mpi.mpi_waitall) _ (
              Ensured-assert _ (ir.get_num_arg_operands call == 3) _ (
                if_split (Ensured (Matching begin_index call))
                  (indexing.is_constant_int (ir.get_arg_operand call 0))
                  (λ constant covered. (ground (arith, h, e), (constant, covered)))
                  (λ _ never. absurd (ground (arith, never)))))))
          (λ _ never. absurd (ground (arith, never)))

    one :
        (b : Bool) (call : ℕ)
        → (b ≡ true → WaitsFor ir indexing mpi req call)
        → All (WaitsFor ir indexing mpi req) (if b then call ∷ [] else [])
    one true call h = (h refl, tt)
    one false call h = tt

    matches_from-WaitsFor :
        (begin_index : ℕ) (is_same : Bool) (call : ℕ)
        → ir.is_call call ≡ true
        → Uses ir indexing mpi
            (indexing.get_pointer_operand req)
            call
            (indexing.get_sext_value begin_index)
        → (is_same ≡ true → indexing.get_sext_value begin_index ≡ indexing.get_sext_value index)
        → AllWait (matches_from ir indexing mpi begin_index index is_same call)
    unfolding matches_from
    matches_from-WaitsFor begin_index is_same call h uses same =
        Ensured-bind (Matching begin_index call) (All (WaitsFor ir indexing mpi req)) _ _
          (is_waitall_matching-Matching begin_index call h)
          (λ matching m.
            All-append _ _ _
              (one _ call (λ e.
                one_of (indexing.get_sext_value begin_index) structure first (ground (arith, h, e))
                  uses (same (ground (arith, e)))))
              (one matching call (λ e.
                let (c, (k, v)) = m e in
                all_of (indexing.get_sext_value begin_index) structure first c uses k v)))

    All-each :
        (found others : Checked (List ℕ))
        → AllWait found
        → AllWait others
        → AllWait (found >>= λ l. others >>= λ m. pure (l ++ m))
    All-each found others h k =
        Ensured-bind _ _ found _ h
          (λ l hs. Ensured-bind _ _ others _ k (λ m ks. All-append _ l m hs ks))

    uses_of_element-WaitsFor :
        (gep j0 j1 : ℕ) (users : List ℕ)
        → contains gep (ir.users (indexing.get_pointer_operand req)) ≡ true
        → indexing.is_get_element_ptr gep ≡ true
        → indexing.indices gep ≡ j0 ∷ j1 ∷ []
        → indexing.get_sext_value j0 ≡ pos 0
        → ((u : ℕ) → contains u users ≡ true → contains u (ir.users gep) ≡ true)
        → AllWait (uses_of_element ir indexing mpi j1 index users)
    unfolding uses_of_element
    uses_of_element-WaitsFor gep j0 j1 [] g is_gep simple zero_first within = tt
    uses_of_element-WaitsFor gep j0 j1 (u ∷ rest) g is_gep simple zero_first within =
        All-each _ _
          (if_split AllWait (ir.is_call u)
            (λ call.
              matches_from-WaitsFor j1 (index == j1) u call
                (element gep j0 j1 g is_gep simple zero_first (within u (simp ==_self)))
                (λ e. ap indexing.get_sext_value (sym ((==_iff index j1).0 e))))
            (λ _. tt))
          (uses_of_element-WaitsFor gep j0 j1 rest g is_gep simple zero_first
            (λ v e. within v (ground (arith, e))))

    uses_at-WaitsFor :
        (gep : ℕ) (indices : List ℕ)
        → contains gep (ir.users (indexing.get_pointer_operand req)) ≡ true
        → indexing.is_get_element_ptr gep ≡ true
        → indexing.indices gep ≡ indices
        → AllWait (uses_at ir indexing mpi index indices (ir.users gep))
    unfolding uses_at
    uses_at-WaitsFor gep [] g is_gep e = tt
    uses_at-WaitsFor gep (j0 ∷ []) g is_gep e = tt
    uses_at-WaitsFor gep (j0 ∷ j1 ∷ []) g is_gep e =
        if_split AllWait (is_zeroℤ (indexing.get_sext_value j0))
          (λ z.
            uses_of_element-WaitsFor gep j0 j1 (ir.users gep) g is_gep e (is_zeroℤ_lem _ z)
              (λ u m. m))
          (λ _. tt)
    uses_at-WaitsFor gep (j0 ∷ j1 ∷ j2 ∷ rest) g is_gep e = tt

    pub get_matching_waitall-WaitsFor :
        (users : List ℕ)
        → ((u : ℕ)
            → contains u users ≡ true
            → contains u (ir.users (indexing.get_pointer_operand req)) ≡ true)
        → AllWait (get_matching_waitall ir indexing mpi users index)
    unfolding get_matching_waitall
    get_matching_waitall-WaitsFor [] within = tt
    get_matching_waitall-WaitsFor (u ∷ rest) within =
        let used = within u (simp ==_self) in
        let base_zero = zeros index in
        All-each _ _
          (if_split AllWait (ir.is_call u)
            (λ call.
              matches_from-WaitsFor (indexing.zero_like index)
                (is_zeroℤ (indexing.get_sext_value index)) u call (rw base_zero (base used))
                (λ e. base_zero ∙ sym (is_zeroℤ_lem _ e)))
            (λ _.
              if_split AllWait
                (indexing.is_get_element_ptr u && indexing.has_all_constant_indices u)
                (λ e. uses_at-WaitsFor u (indexing.indices u) used (ground (arith, e)) refl)
                (λ _. tt)))
          (get_matching_waitall-WaitsFor rest (λ v e. within v (ground (arith, e))))
