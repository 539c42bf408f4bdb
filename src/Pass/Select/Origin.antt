-- ===== src/Pass/Select/Origin.antt =====
-- Why a call is replaced.
use mpi_comp_match.Base.{
  ℕ, ◌≡◌, refl, sym, ◌∙◌, Bool, true, false, List, [], ◌∷◌, some, map, ◌||◌, ◌==◌, if◌then◌else◌,
  ◌⊎◌, inl, inr, ⊎_elim, Bool-cases, ==_iff, ==_self, arith,
}
use mpi_comp_match.Pass.Checked.{Ensured, Ensured-bind, Ensured-map, Ensured-self, Ensured_result}
use mpi_comp_match.Pass.Llvm.{Llvm}
use mpi_comp_match.Pass.Functions.{MpiFunctions}
use mpi_comp_match.Pass.Conflicts.{Wildcards}
use mpi_comp_match.Pass.Metadata.{any_of}
use mpi_comp_match.Pass.Search.{contains}
use mpi_comp_match.Pass.Scopes.{Indexing, is_call_of}
use mpi_comp_match.Pass.Search.Paths.{if_split}
use mpi_comp_match.Pass.Replacement.Exact.{
  uses_request_of, is_to_be_replaced, IsExact, replace_communication_calls-IsExact,
}
use mpi_comp_match.Pass.Replacement.{add_init, add_finalize}
use mpi_comp_match.Pass.Select.{
  Changes, check_mpi_conflicts, remove_conflicting, calls_among, init_calls, replace_if_both,
  run_on_module,
}

true_or : (a b : Bool) → (a || b) ≡ true → (a ≡ true) ⊎ (b ≡ true)
true_or true b h = inl refl
true_or false b h = inr h

-- An item of the list that passes the test.
any_of-found :
    (test : ℕ → Bool) (l : List ℕ)
    → any_of test l ≡ true
    → (i : ℕ) × ((contains i l ≡ true) × (test i ≡ true))
unfolding any_of
any_of-found test [] h = absurd (ground (arith, h))
any_of-found test (x ∷ rest) h = go (test x) refl (any_of-found test rest)
  where
    go :
        (b : Bool)
        → test x ≡ b
        → (any_of test rest ≡ true → (i : ℕ) × ((contains i rest ≡ true) × (test i ≡ true)))
        → (i : ℕ) × ((contains i (x ∷ rest) ≡ true) × (test i ≡ true))
    go true e later = (x, (ground arith, e))
    go false e later = let (i, (m, t)) = later (ground (arith, h, e)) in (i, (ground (arith, m), t))

module _ (ir : Llvm) (indexing : Indexing) (mpi : MpiFunctions) (wildcards : Wildcards)
    (fuel : ℕ) where
  -- The creation of a request of this kind that the search of this kind has found without conflict.
  abbrev pub IsSelectedAs : (creation : ℕ) → (is_sending : Bool) → ℕ → Type 0
  IsSelectedAs creation is_sending init =
      (is_call_of ir creation init ≡ true)
      × (check_mpi_conflicts ir indexing mpi wildcards fuel is_sending init ≡ some false)

  -- A call of MPI_Send_init is searched for as a send, one of MPI_Recv_init as a receive.
  abbrev pub IsSelected : ℕ → Type 0
  IsSelected init =
      IsSelectedAs mpi.mpi_send_init true init ⊎ IsSelectedAs mpi.mpi_recv_init false init

  abbrev AreCalls : (creation : ℕ) → List ℕ → Type 0
  AreCalls creation l = (c : ℕ) → contains c l ≡ true → is_call_of ir creation c ≡ true

  calls_among-AreCalls : (f : ℕ) (l : List ℕ) → AreCalls f (calls_among ir mpi f l)
  unfolding calls_among
  calls_among-AreCalls f [] = λ c e. absurd (ground (arith, e))
  calls_among-AreCalls f (user ∷ rest) =
      if_split (AreCalls f) (is_call_of ir f user) (λ is. added is (calls_among-AreCalls f rest))
        (λ _. calls_among-AreCalls f rest)
    where
      added :
          is_call_of ir f user ≡ true
          → AreCalls f (calls_among ir mpi f rest)
          → AreCalls f (user ∷ calls_among ir mpi f rest)
      added is h c m =
          ⊎_elim (λ same. rw ((==_iff c user).0 same) is) (λ other. h c (ground (arith, m, other)))
            (Bool-cases (c == user))

  init_calls-AreCalls : (f : ℕ) → AreCalls f (init_calls ir mpi f)
  unfolding init_calls
  init_calls-AreCalls f =
      if_split (AreCalls f) (f == 0) (λ _ c e. absurd (ground (arith, e)))
        (λ _. calls_among-AreCalls f (ir.users f))

  remove_conflicting-IsSelectedAs :
      (creation : ℕ) (is_sending : Bool) (calls : List ℕ)
      → AreCalls creation calls
      → Ensured
          (λ l. (c : ℕ) → contains c l ≡ true → IsSelectedAs creation is_sending c)
          (remove_conflicting ir indexing mpi wildcards fuel is_sending calls)
  unfolding remove_conflicting
  remove_conflicting-IsSelectedAs creation is_sending [] are = λ c e. absurd (ground (arith, e))
  remove_conflicting-IsSelectedAs creation is_sending (call ∷ rest) are =
      Ensured-bind _ _ (check_mpi_conflicts ir indexing mpi wildcards fuel is_sending call) _
        (Ensured-self _)
        (λ b e.
          Ensured-bind _ _ (remove_conflicting ir indexing mpi wildcards fuel is_sending rest) _
            (remove_conflicting-IsSelectedAs creation is_sending rest
              (λ c m. are c (ground (arith, m))))
            (λ l h. keep b l e h))
    where
      keep :
          (b : Bool) (l : List ℕ)
          → check_mpi_conflicts ir indexing mpi wildcards fuel is_sending call ≡ some b
          → ((c : ℕ) → contains c l ≡ true → IsSelectedAs creation is_sending c)
          → (c : ℕ) → contains c (if b then l else call ∷ l) ≡ true
          → IsSelectedAs creation is_sending c
      keep true l e h c m = h c m
      keep false l e h c m =
          ⊎_elim (λ same. rw ((==_iff c call).0 same) (are call (ground (arith, ==_self call)), e))
            (λ other. h c (ground (arith, m, other))) (Bool-cases (c == call))

  -- The call is an operation without conflict, or uses the request of one.
  abbrev pub HasOrigin : ℕ → Type 0
  HasOrigin c =
      (init : ℕ) × (IsSelected init × ((c ≡ init) ⊎ (uses_request_of ir mpi init c ≡ true)))

  used-HasOrigin :
      (l : List ℕ) (c : ℕ)
      → ((i : ℕ) → contains i l ≡ true → IsSelected i)
      → any_of (λ i. uses_request_of ir mpi i c) l ≡ true
      → HasOrigin c
  used-HasOrigin l c h e =
      let (i, (m, u)) = any_of-found (λ i. uses_request_of ir mpi i c) l e in (i, (h i m, inr u))

  replaced-HasOrigin :
      (sends recvs : List ℕ) (c : ℕ)
      → ((i : ℕ) → contains i sends ≡ true → IsSelected i)
      → ((i : ℕ) → contains i recvs ≡ true → IsSelected i)
      → is_to_be_replaced ir mpi sends recvs c ≡ true
      → HasOrigin c
  replaced-HasOrigin sends recvs c hs hr e =
      ⊎_elim
        (λ inits.
          ⊎_elim (λ m. (c, (hs c m, inl refl))) (λ m. (c, (hr c m, inl refl)))
            (true_or (contains c sends) _ inits))
        (λ uses.
          ⊎_elim (used-HasOrigin sends c hs) (used-HasOrigin recvs c hr)
            (true_or (any_of _ sends) _ uses))
        (true_or (contains c sends || contains c recvs) _ e)

  abbrev pub AllHaveOrigin : List (ℕ × ℕ) → Type 0
  AllHaveOrigin l = (c : ℕ) → contains c (map (λ p. p.0) l) ≡ true → HasOrigin c

  replace_if_both-HasOrigin :
      (sends recvs : List ℕ)
      → ((i : ℕ) → contains i sends ≡ true → IsSelected i)
      → ((i : ℕ) → contains i recvs ≡ true → IsSelected i)
      → Ensured AllHaveOrigin (replace_if_both ir indexing mpi wildcards fuel sends recvs)
  replace_if_both-HasOrigin [] recvs hs hr = λ c e. absurd (ground (arith, e))
  replace_if_both-HasOrigin (s ∷ sends) [] hs hr = λ c e. absurd (ground (arith, e))
  replace_if_both-HasOrigin (s ∷ sends) (r ∷ recvs) hs hr =
      Ensured-map (IsExact ir mpi (s ∷ sends) (r ∷ recvs)) AllHaveOrigin _
        (λ l h c e. replaced-HasOrigin (s ∷ sends) (r ∷ recvs) c hs hr (sym (h.0 c) ∙ e))
        (replace_communication_calls-IsExact ir mpi (s ∷ sends) (r ∷ recvs))

  run_on_module-AllHaveOrigin :
      Ensured
        (λ changes. AllHaveOrigin changes.replaced)
        (run_on_module ir indexing mpi wildcards fuel)
  unfolding run_on_module
  run_on_module-AllHaveOrigin =
      let send_inits = init_calls ir mpi mpi.mpi_send_init in
      let recv_inits = init_calls ir mpi mpi.mpi_recv_init in
      Ensured-bind _ _ (remove_conflicting ir indexing mpi wildcards fuel true send_inits) _
        (remove_conflicting-IsSelectedAs mpi.mpi_send_init true send_inits (init_calls-AreCalls _))
        (λ sends hs.
          Ensured-bind _ _ (remove_conflicting ir indexing mpi wildcards fuel false recv_inits) _
            (remove_conflicting-IsSelectedAs mpi.mpi_recv_init false recv_inits
              (init_calls-AreCalls _))
            (λ recvs hr.
              Ensured-bind _ _ (replace_if_both ir indexing mpi wildcards fuel sends recvs) _
                (replace_if_both-HasOrigin sends recvs (λ i m. inl (hs i m)) (λ i m. inr (hr i m)))
                (λ replaced h. Ensured-bind _ _ (add_init ir mpi) _ (Ensured-self _) (λ inits _.
                  Ensured-bind _ _ (add_finalize ir mpi) _ (Ensured-self _) (λ finalizes _. h)))))

  -- Every call that the pass replaces is a call of MPI_Send_init for which the search among the sends
  -- has returned that there is no conflict, a call of MPI_Recv_init for which the search among the
  -- receives has, or a call of MPI that uses the request of such a call.
  pub run_on_module-HasOrigin :
      (changes : Changes) (c : ℕ)
      → run_on_module ir indexing mpi wildcards fuel ≡ some changes
      → contains c (map (λ p. p.0) changes.replaced) ≡ true
      → HasOrigin c
  run_on_module-HasOrigin changes c e m =
      Ensured_result (λ changes'. AllHaveOrigin changes'.replaced)
        (run_on_module ir indexing mpi wildcards fuel) changes run_on_module-AllHaveOrigin e c m
