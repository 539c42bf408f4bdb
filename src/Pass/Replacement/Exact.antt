-- ===== src/Pass/Replacement/Exact.antt =====
-- Which calls are replaced, and by what.
use mpi_comp_match.Base.{
  ℕ, ◌≡◌, refl, ap, ◌∙◌, Bool, true, false, List, [], ◌∷◌, some, map, ◌||◌, ◌&&◌, ◌==◌, All, arith,
  ==_iff,
}
use mpi_comp_match.Pass.Checked.{
  Checked, ◌>>◌, assert, pure, Ensured, Ensured-assert, Ensured-bind, Ensured-map, Ensured-all,
  Ensured_result,
}
use mpi_comp_match.Pass.Llvm.{Llvm}
use mpi_comp_match.Pass.Functions.{MpiFunctions, is_mpi_call}
use mpi_comp_match.Pass.Metadata.{any_of}
use mpi_comp_match.Pass.Search.Sets.{contains-insert}
use mpi_comp_match.Pass.Search.{contains, insert}
use mpi_comp_match.Pass.Search.Paths.{if_split}
use mpi_comp_match.Pass.Replacement.{
  check_if_all_usages_of_ptr_are_lifetime, classify_use, gather_uses, get_usage_of_request,
  insert_all, gather_all_uses, optimized_function, replace_call, replace_each,
  replace_communication_calls,
}

regroup : (a b s : Bool) → (a || (b || s)) ≡ ((b || a) || s)
regroup true true s = refl
regroup true false s = refl
regroup false true s = refl
regroup false false s = refl

-- The order in which the set has been filled does not matter.
reorder :
    (s r us ur w i n : Bool)
    → w ≡ (us || i)
    → i ≡ (r || n)
    → n ≡ (s || false)
    → (ur || w) ≡ ((s || r) || (us || ur))
reorder s r us ur w i n a b c = ground (arith, a, b, c)

module _ (ir : Llvm) (mpi : MpiFunctions) where
  contains-insert_all :
      (c : ℕ) (l set : List ℕ)
      → contains c (insert_all ir mpi l set) ≡ (contains c l || contains c set)
  unfolding insert_all
  contains-insert_all c [] set = refl
  contains-insert_all c (x ∷ rest) set =
      grind (arith, contains-insert_all c rest (insert x set), contains-insert c x set)

  -- An MPI call that uses the request of the operation.
  abbrev pub uses_request_of : (init c : ℕ) → Bool
  uses_request_of init c =
      contains c (ir.users (ir.get_arg_operand init 6)) && (ir.is_call c && is_mpi_call ir c)

  classify_use-exact :
      (u : ℕ) → Ensured (λ b. b ≡ (ir.is_call u && is_mpi_call ir u)) (classify_use ir u)
  unfolding classify_use
  classify_use-exact u =
      if_split Exact (ir.is_call u)
        (λ call.
          if_split Exact (is_mpi_call ir u) (λ mpi_call. ground (arith, call, mpi_call))
            (λ other. tt))
        (λ other.
          if_split Exact (ir.is_bit_cast u)
            (λ cast.
              Ensured-assert (λ b. b ≡ (ir.is_call u && is_mpi_call ir u))
                (check_if_all_usages_of_ptr_are_lifetime ir (ir.users u)) (pure false)
                (ground (arith, other)))
            (λ neither. tt))
    where
      Exact : Checked Bool → Type 0
      Exact = Ensured (λ b. b ≡ (ir.is_call u && is_mpi_call ir u))

  gather_uses-exact :
      (c : ℕ) (users : List ℕ)
      → Ensured
          (λ l. contains c l ≡ (contains c users && (ir.is_call c && is_mpi_call ir c)))
          (gather_uses ir users)
  unfolding gather_uses
  gather_uses-exact c [] = refl
  gather_uses-exact c (u ∷ rest) =
      Ensured-bind (λ b. b ≡ (ir.is_call u && is_mpi_call ir u)) _ (classify_use ir u) _
        (classify_use-exact u)
        (λ b e.
          Ensured-bind _ _ (gather_uses ir rest) _ (gather_uses-exact c rest)
            (λ l k. grind (arith, e, k)))

  get_usage_of_request-exact :
      (c i : ℕ) → Ensured (λ l. contains c l ≡ uses_request_of i c) (get_usage_of_request ir mpi i)
  unfolding get_usage_of_request
  get_usage_of_request-exact c i =
      let f = ir.get_called_function i in
      let uses = gather_uses ir (ir.users (ir.get_arg_operand i 6)) in
      Ensured-assert (λ l. contains c l ≡ uses_request_of i c)
        (f == mpi.mpi_send_init || f == mpi.mpi_recv_init)
        (assert (ir.get_num_arg_operands i == 7) >> uses)
        (Ensured-assert (λ l. contains c l ≡ uses_request_of i c) (ir.get_num_arg_operands i == 7)
          uses (gather_uses-exact c (ir.users (ir.get_arg_operand i 6))))

  replace_call-exact : (c g : ℕ) → Ensured (λ p. p ≡ (c, g)) (replace_call ir mpi c g)
  unfolding replace_call
  replace_call-exact c g =
      Ensured-assert (λ p. p ≡ (c, g)) (ir.same_function_type c g) (pure (c, g)) refl

  gather_all_uses-exact :
      (c : ℕ) (inits set : List ℕ)
      → Ensured
          (λ l. contains c l ≡ (any_of (λ i. uses_request_of i c) inits || contains c set))
          (gather_all_uses ir mpi inits set)
  unfolding gather_all_uses any_of
  gather_all_uses-exact c [] set = refl
  gather_all_uses-exact c (i ∷ rest) set =
      Ensured-bind _ _ (get_usage_of_request ir mpi i) _ (get_usage_of_request-exact c i) (λ uses e.
        Ensured-map _ _ (gather_all_uses ir mpi rest (insert_all ir mpi uses set))
          (λ l k.
            k
            ∙ rw (contains-insert_all c uses set, e)
                (regroup (any_of (λ i. uses_request_of i c) rest) (uses_request_of i c)
                  (contains c set)))
          (gather_all_uses-exact c rest (insert_all ir mpi uses set)))

  -- The function that takes the place of another: MPIOPT_Wait that of MPI_Wait, and so on.
  pub data TakesPlaceOf : (replacement original : ℕ) → Type 0 where
    wait : TakesPlaceOf mpi.optimized.mpi_wait mpi.mpi_wait
    start : TakesPlaceOf mpi.optimized.mpi_start mpi.mpi_start
    request_free : TakesPlaceOf mpi.optimized.mpi_request_free mpi.mpi_request_free
    send_init : TakesPlaceOf mpi.optimized.mpi_send_init mpi.mpi_send_init
    recv_init : TakesPlaceOf mpi.optimized.mpi_recv_init mpi.mpi_recv_init

  place_of :
      (g f : ℕ) {original : ℕ} → TakesPlaceOf g original → (f == original) ≡ true → TakesPlaceOf g f
  place_of g f {original = original} t e = rw ((==_iff f original).0 e) t

  optimized_function-TakesPlaceOf :
      (f : ℕ) → Ensured (λ g. TakesPlaceOf g f) (optimized_function ir mpi f)
  unfolding optimized_function
  optimized_function-TakesPlaceOf f = if_split Places (f == mpi.mpi_wait) (place_of _ f wait) (λ _.
      if_split Places (f == mpi.mpi_start) (place_of _ f start) (λ _.
        if_split Places (f == mpi.mpi_request_free) (place_of _ f request_free) (λ _.
          if_split Places (f == mpi.mpi_send_init) (place_of _ f send_init)
            (λ _. if_split Places (f == mpi.mpi_recv_init) (place_of _ f recv_init) (λ _. tt)))))
    where
      Places : Checked ℕ → Type 0
      Places = Ensured (λ g. TakesPlaceOf g f)

  -- Whether a call is to be replaced, in terms of the operations that are.
  abbrev pub is_to_be_replaced : (init_send_calls init_recv_calls : List ℕ) → ℕ → Bool
  is_to_be_replaced sends recvs c =
      (contains c sends || contains c recvs)
      || (any_of (λ i. uses_request_of i c) sends || any_of (λ i. uses_request_of i c) recvs)

  -- The calls that are to be replaced, with what holds of each replacement and its original.
  abbrev pub Replaces :
      (ℕ → ℕ → Type 0) → (init_send_calls init_recv_calls : List ℕ) → List (ℕ × ℕ) → Type 0
  Replaces P sends recvs l =
      ((c : ℕ) → contains c (map (λ p. p.0) l) ≡ is_to_be_replaced sends recvs c)
      × All (λ p. P p.1 (ir.get_called_function p.0)) l

  -- The calls that are to be replaced, each with the function that takes the place of its own.
  abbrev pub IsExact : (init_send_calls init_recv_calls : List ℕ) → List (ℕ × ℕ) → Type 0
  IsExact = Replaces TakesPlaceOf

  -- Which calls are replaced, with what holds of each and of its replacement.
  module _ (P : ℕ → ℕ → Type 0)
      (replaces : (f : ℕ) → Ensured (λ g. P g f) (optimized_function ir mpi f)) where
    replace_each-exact :
        (calls : List ℕ)
        → Ensured
            (λ l. (map (λ p. p.0) l ≡ calls) × All (λ p. P p.1 (ir.get_called_function p.0)) l)
            (replace_each ir mpi calls)
    unfolding replace_each replace_call
    replace_each-exact [] = (refl, tt)
    replace_each-exact (c ∷ rest) =
        Ensured-bind (λ g. P g (ir.get_called_function c)) _
          (optimized_function ir mpi (ir.get_called_function c)) _ (replaces _)
          (λ g e.
            Ensured-bind (λ p. p ≡ (c, g)) _ (replace_call ir mpi c g) _ (replace_call-exact c g)
              (λ p d.
                Ensured-bind _ _ (replace_each ir mpi rest) _ (replace_each-exact rest)
                  (λ l k. (rw d (ap (λ r. c ∷ r) k.0), (rw d e, k.1)))))

    pub replace_communication_calls-Replaces :
        (init_send_calls init_recv_calls : List ℕ)
        → Ensured
            (Replaces P init_send_calls init_recv_calls)
            (replace_communication_calls ir mpi init_send_calls init_recv_calls)
    unfolding replace_communication_calls
    replace_communication_calls-Replaces sends recvs =
        let inits = insert_all ir mpi recvs (insert_all ir mpi sends []) in
        Ensured-bind _ _ (gather_all_uses ir mpi sends inits) _
          (Ensured-all _ _ (λ c. gather_all_uses-exact c sends inits))
          (λ with_sends k.
            Ensured-bind _ _ (gather_all_uses ir mpi recvs with_sends) _
              (Ensured-all _ _ (λ c. gather_all_uses-exact c recvs with_sends))
              (λ calls j.
                Ensured-map _ _ (replace_each ir mpi calls)
                  (λ l h. (
                    (λ c. rw h.0 (
                        j c
                        ∙ reorder (contains c sends) (contains c recvs)
                            (any_of (λ i. uses_request_of i c) sends)
                            (any_of (λ i. uses_request_of i c) recvs) _ _ _ (k c)
                            (contains-insert_all c recvs _) (contains-insert_all c sends []))),
                    h.1,
                  ))
                  (replace_each-exact calls)))

  pub replace_communication_calls-IsExact :
      (init_send_calls init_recv_calls : List ℕ)
      → Ensured
          (IsExact init_send_calls init_recv_calls)
          (replace_communication_calls ir mpi init_send_calls init_recv_calls)
  replace_communication_calls-IsExact =
      replace_communication_calls-Replaces TakesPlaceOf optimized_function-TakesPlaceOf

  -- The calls that are replaced are just the operations themselves and every call of MPI that uses
  -- the request of one of them. A call of MPI_Wait becomes one of MPIOPT_Wait, and likewise those of
  -- MPI_Start, MPI_Request_free, MPI_Send_init and MPI_Recv_init; no other call is replaced.
  pub replace_communication_calls_lem :
      (init_send_calls init_recv_calls : List ℕ) (l : List (ℕ × ℕ))
      → replace_communication_calls ir mpi init_send_calls init_recv_calls ≡ some l
      → IsExact init_send_calls init_recv_calls l
  replace_communication_calls_lem sends recvs l =
      Ensured_result (IsExact sends recvs) (replace_communication_calls ir mpi sends recvs) l
        (replace_communication_calls-IsExact sends recvs)
