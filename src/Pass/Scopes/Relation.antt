-- ===== src/Pass/Scopes/Relation.antt =====
-- What it means that a call waits for a request.
use mpi_comp_match.Base.{
  ℕ, zero, suc, ℤ, is_zeroℤ, ◌≡◌, refl, true, List, [], ◌∷◌, ◌++◌, ◌==◌, All, ==_iff, arith, inl,
  inr, Bool-cases, pos, negsuc,
}
use mpi_comp_match.Pass.Checked.{Ensured, Ensured-bind, Ensured-checked}
use mpi_comp_match.Pass.Llvm.{Llvm}
use mpi_comp_match.Pass.Functions.{MpiFunctions}
use mpi_comp_match.Pass.Search.{contains}
use mpi_comp_match.Pass.Search.Paths.{if_split}
use mpi_comp_match.Pass.Scopes.{Indexing, covers, is_call_of, finalize_calls}

pub All-append : (P : ℕ → Type 0) (l m : List ℕ) → All P l → All P m → All P (l ++ m)
All-append P [] m h k = k
All-append P (x ∷ l) m (h, hs) k = (h, All-append P l m hs k)

pub All-map : (P Q : ℕ → Type 0) (l : List ℕ) → ((x : ℕ) → P x → Q x) → All P l → All Q l
All-map P Q [] k h = tt
All-map P Q (x ∷ l) k (h, hs) = (k x h, All-map P Q l k hs)

pub All-found : (P : ℕ → Type 0) (x : ℕ) (l : List ℕ) → All P l → contains x l ≡ true → P x
All-found P x [] h e = absurd (ground (arith, e))
All-found P x (y ∷ l) (h, hs) e = elim (Bool-cases (x == y)) [
  | inl same ↦ rw ((==_iff x y).0 same) h
  | inr other ↦ All-found P x l hs (ground (arith, e, other))
]

pub is_zeroℤ_lem : (i : ℤ) → is_zeroℤ i ≡ true → i ≡ pos 0
is_zeroℤ_lem (pos zero) h = refl
is_zeroℤ_lem (pos (suc n)) h = absurd (ground (arith, h))
is_zeroℤ_lem (negsuc n) h = absurd (ground (arith, h))

module _ (ir : Llvm) (indexing : Indexing) (mpi : MpiFunctions) where
  abbrev pub value_of : ℕ → ℤ
  value_of = indexing.get_sext_value

  -- The call uses a pointer to this place of the array.
  pub data Uses (req_array : ℕ) : (call : ℕ) → ℤ → Type 0 where
    base : {call : ℕ} → contains call (ir.users req_array) ≡ true → Uses req_array call (pos 0)
    element :
        {call : ℕ} (gep i0 i1 : ℕ)
        → contains gep (ir.users req_array) ≡ true
        → indexing.is_get_element_ptr gep ≡ true
        → indexing.indices gep ≡ i0 ∷ i1 ∷ []
        → value_of i0 ≡ pos 0
        → contains call (ir.users gep) ≡ true
        → Uses req_array call (value_of i1)

  -- The call waits for the request: for the variable, or for the element of an array, alone or with
  -- others.
  pub data WaitsFor (req : ℕ) : (call : ℕ) → Type 0 where
    alone :
        {call : ℕ}
        → is_call_of ir mpi.mpi_wait call ≡ true
        → ir.get_arg_operand call 0 ≡ req
        → WaitsFor req call
    one_of :
        {call i0 i1 : ℕ} (begin : ℤ)
        → indexing.indices req ≡ i0 ∷ i1 ∷ []
        → value_of i0 ≡ pos 0
        → is_call_of ir mpi.mpi_wait call ≡ true
        → Uses (indexing.get_pointer_operand req) call begin
        → begin ≡ value_of i1
        → WaitsFor req call
    all_of :
        {call i0 i1 : ℕ} (begin : ℤ)
        → indexing.indices req ≡ i0 ∷ i1 ∷ []
        → value_of i0 ≡ pos 0
        → is_call_of ir mpi.mpi_waitall call ≡ true
        → Uses (indexing.get_pointer_operand req) call begin
        → indexing.is_constant_int (ir.get_arg_operand call 0) ≡ true
        → covers begin (value_of (ir.get_arg_operand call 0)) (value_of i1) ≡ true
        → WaitsFor req call

  -- ConstantInt::get gives 0 here.
  abbrev pub HasZeros : Type 0
  HasZeros = (i : ℕ) → value_of (indexing.zero_like i) ≡ pos 0

module _ (ir : Llvm) (mpi : MpiFunctions) where
  pub finalize_calls-All :
      (users : List ℕ)
      → Ensured
          (All (λ call. is_call_of ir mpi.mpi_finalize call ≡ true))
          (finalize_calls ir mpi users)
  unfolding finalize_calls
  finalize_calls-All [] = tt
  finalize_calls-All (u ∷ rest) =
      let Q = All (λ call. is_call_of ir mpi.mpi_finalize call ≡ true) in
      if_split (Ensured Q) (ir.is_call u)
        (λ call. Ensured-checked Q (ir.get_called_function u == mpi.mpi_finalize) _ (λ e.
          Ensured-bind Q Q (finalize_calls ir mpi rest) _ (finalize_calls-All rest)
            (λ calls h. (ground (arith, call, e), h))))
        (λ _. finalize_calls-All rest)
