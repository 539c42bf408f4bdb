-- ===== src/Rendezvous/Lifecycle/Release.antt =====
-- What is released when, by `MPIOPT_Request_free` and `MPIOPT_FINALIZE`.
use mpi_comp_match.Base.{
  ℕ, ◌≡◌, refl, ap₂, ap, sym, ◌∙◌, append_assoc, List, [], ◌∷◌, ◌++◌, inl, inr, Bool-cases,
  if◌then◌else◌, ==_self, some,
}
use mpi_comp_match.Rendezvous.Request.{
  Request, handshake_communicator, handshake_response_communicator,
}
use mpi_comp_match.Rendezvous.Library.{
  Library, Call, request, rdma_info, ucp_mem_unmap, ucp_rkey_destroy, mpi_comm_free, mpi_win_free,
  free,
}
use mpi_comp_match.Rendezvous.Machine.{
  State, M, Outcome, Returns, pure, fault, assertion_failed, ◌>>◌, ◌>>=◌,
}
use mpi_comp_match.Rendezvous.Machine.Run.{run, Returns-bind, Returns-map}
use mpi_comp_match.Rendezvous.RequestList.{remove, remove_request_from_list}
use mpi_comp_match.Rendezvous.Lifecycle.{
  is_connected, release_request, release_all, mpiopt_request_free_internal, mpiopt_finalize,
}

-- What `MPIOPT_FINALIZE` does with one request, latest call first.
abbrev pub release_calls : ℕ → Request → List Call
release_calls p r =
    if is_connected r.type
    then free (request p)
      ∷ ucp_rkey_destroy r.remote_flag_rkey
      ∷ ucp_mem_unmap r.mem_handle_flag
      ∷ free (rdma_info p)
      ∷ []
    else free (request p) ∷ free (rdma_info p) ∷ []

abbrev pub release_all_calls : (ℕ → Request) → List ℕ → List Call
release_all_calls heap [] = []
release_all_calls heap (p ∷ rest) = release_all_calls heap rest ++ release_calls p (heap p)

-- The calls that `MPIOPT_Request_free` makes for a request.
abbrev pub free_calls : Request → List Call
free_calls r =
    if is_connected r.type
    then ucp_rkey_destroy r.remote_data_rkey ∷ ucp_mem_unmap r.mem_handle_data ∷ []
    else []

remove_self : (p : ℕ) (rest : List ℕ) → remove p (p ∷ rest) ≡ some rest
unfolding remove
remove_self p rest = simp ==_self

-- The handles of the memory regions that a log unmaps, latest first.
unfoldable pub unmapped : List Call → List ℕ
unmapped [] = []
unmapped (ucp_mem_unmap h ∷ rest) = h ∷ unmapped rest
unmapped (c ∷ rest) = unmapped rest

-- The handles of the flags of the connected requests among these, those of the last request first.
abbrev pub flag_handles : (ℕ → Request) → List ℕ → List ℕ
flag_handles heap [] = []
flag_handles heap (p ∷ rest) =
    flag_handles heap rest
    ++ (if is_connected (heap p).type then (heap p).mem_handle_flag ∷ [] else [])

abbrev pub data_handles : Request → List ℕ
data_handles r = if is_connected r.type then r.mem_handle_data ∷ [] else []

release_all_calls-same :
    (heap heap' : ℕ → Request) (l : List ℕ)
    → ((q : ℕ) → release_calls q (heap' q) ≡ release_calls q (heap q))
    → release_all_calls heap' l ≡ release_all_calls heap l
release_all_calls-same heap heap' [] h = refl
release_all_calls-same heap heap' (q ∷ rest) h =
    ap₂ ◌++◌ (release_all_calls-same heap heap' rest h) (h q)

unmapped-release :
    (p : ℕ) (r : Request) (log : List Call)
    → unmapped (release_calls p r ++ log)
      ≡ (if is_connected r.type then r.mem_handle_flag ∷ [] else []) ++ unmapped log
unfolding unmapped
unmapped-release p r log = elim (Bool-cases (is_connected r.type)) [
  | inl e ↦ rw e refl
  | inr e ↦ rw e refl
]

unmapped-release_all :
    (heap : ℕ → Request) (l : List ℕ) (log : List Call)
    → unmapped (release_all_calls heap l ++ log) ≡ flag_handles heap l ++ unmapped log
unmapped-release_all heap [] log = refl
unmapped-release_all heap (p ∷ rest) log =
    ap unmapped (append_assoc (release_all_calls heap rest) _ _)
    ∙ (unmapped-release_all heap rest _
        ∙ (ap (λ l. flag_handles heap rest ++ l) (unmapped-release p (heap p) log)
            ∙ sym (append_assoc (flag_handles heap rest) _ _)))

unmapped-free :
    (r : Request) (log : List Call)
    → unmapped (mpi_win_free ∷ free_calls r ++ log) ≡ data_handles r ++ unmapped log
unfolding unmapped
unmapped-free r log = elim (Bool-cases (is_connected r.type)) [
  | inl e ↦ rw e refl
  | inr e ↦ rw e refl
]

unmapped-lifetime :
    (heap : ℕ → Request) (l : List ℕ) (r : Request) (log : List Call)
    → unmapped (
        mpi_comm_free handshake_response_communicator
          ∷ mpi_comm_free handshake_communicator
          ∷ release_all_calls heap l
        ++ (mpi_win_free ∷ free_calls r ++ log))
      ≡ flag_handles heap l ++ (data_handles r ++ unmapped log)
unfolding unmapped
unmapped-lifetime heap l r log =
    unmapped-release_all heap l _ ∙ ap (λ k. flag_handles heap l ++ k) (unmapped-free r log)

module _ {World : Type 0} ⦃lib : Library World⦄ where
  -- The calls of one request, which leave what the other calls need as it is.
  pub record Released (calls : List Call) (s s' : State World) : Type 0 where
    pub made : s'.log ≡ calls ++ s.log
    pub same : (q : ℕ) → release_calls q (s'.heap q) ≡ release_calls q (s.heap q)

  release_request-Released :
      (p : ℕ) (s : State World)
      → Returns (release_request p s) λ _. Released (release_calls p (s.heap p)) s
  unfolding release_request
  release_request-Released p s = elim (Bool-cases (is_connected (s.heap p).type)) [
    | inl e ↦ simp (run, e) (record { made = refl; same = λ q. refl })
    | inr e ↦ simp (run, e) (record { made = refl; same = λ q. refl })
  ]

  release_all-calls :
      (l : List ℕ) (s : State World)
      → Returns (release_all l s) λ _ s'. s'.log ≡ release_all_calls s.heap l ++ s.log
  unfolding release_all pure
  release_all-calls [] s = refl
  release_all-calls (p ∷ rest) s =
      Returns-bind (λ _. Released (release_calls p (s.heap p)) s)
        (λ _ s'. s'.log ≡ release_all_calls s.heap (p ∷ rest) ++ s.log) (release_request p)
        (λ _. release_all rest) s (release_request-Released p s)
        λ _ t h.
          Returns-map _ _ (release_all rest t)
            (λ _ u e.
              e
              ∙ (rw (h.made, release_all_calls-same s.heap t.heap rest h.same)
                  (sym (append_assoc (release_all_calls s.heap rest) _ _))))
            (release_all-calls rest t)

  mpiopt_finalize-calls :
      (s : State World)
      → s.request_list ≡ []
      → Returns (mpiopt_finalize s) λ _ s'.
        s'.log
        ≡ mpi_comm_free handshake_response_communicator
            ∷ mpi_comm_free handshake_communicator
            ∷ release_all_calls s.heap s.to_free_list
          ++ (mpi_win_free ∷ s.log)
  unfolding mpiopt_finalize
  mpiopt_finalize-calls s empty =
      simp (run, empty)
        (Returns-bind
          (λ _ u. u.log ≡ release_all_calls s.heap s.to_free_list ++ (mpi_win_free ∷ s.log)) _
          (release_all s.to_free_list) _ _ (release_all-calls s.to_free_list _)
          λ _ u e. simp run (
            ap
              (λ l.
                mpi_comm_free handshake_response_communicator
                ∷ mpi_comm_free handshake_communicator
                ∷ l)
              e))

  abbrev Finalizes : State World → List ℕ → Outcome (State World) (Unit {0}) → Type 0
  Finalizes s [] o = Returns o λ _ s'.
      s'.log
      ≡ mpi_comm_free handshake_response_communicator
          ∷ mpi_comm_free handshake_communicator
          ∷ release_all_calls s.heap s.to_free_list
        ++ (mpi_win_free ∷ s.log)
  Finalizes s (p ∷ rest) o = o ≡ fault assertion_failed

  -- With no active request left, `MPIOPT_FINALIZE` frees the window, then each request of the list
  -- of deferred ones once, in the order of that list, and both communicators. A request is freed
  -- behind its handshake's buffer; that of a connected one comes behind its flag's memory and key.
  -- With an active request left, the assertion fails.
  pub mpiopt_finalize_lem :
      (s : State World) (active : List ℕ)
      → s.request_list ≡ active
      → Finalizes s active (mpiopt_finalize s)
  unfolding mpiopt_finalize
  mpiopt_finalize_lem s [] e = mpiopt_finalize-calls s e
  mpiopt_finalize_lem s (p ∷ rest) e = simp (run, e)

  bind_remove :
      {B : Type 0} (p : ℕ) (s : State World) (rest : List ℕ) (f : Unit {0} → M World B)
      → remove p s.request_list ≡ some rest
      → (remove_request_from_list p >>= f) s ≡ f tt (record s { request_list = rest })
  unfolding remove_request_from_list ◌>>=◌
  bind_remove p s rest f e = rw (e, ◌>>=◌, remove_request_from_list)

  pub record Freed (p : ℕ) (rest : List ℕ) (s s' : State World) : Type 0 where
    pub calls : s'.log ≡ free_calls (s.heap p) ++ s.log
    pub active : s'.request_list ≡ rest
    pub deferred : s'.to_free_list ≡ p ∷ s.to_free_list
    pub same : (q : ℕ) → release_calls q (s'.heap q) ≡ release_calls q (s.heap q)

  -- `MPIOPT_Request_free` takes an active request with no pending transfer out of the list of active
  -- ones and puts it in front of the deferred ones, and makes library calls for a connected one only:
  -- it unmaps the data's memory and destroys its key. What is to be released later stays as it is.
  mpiopt_request_free_internal_lem :
      (p : ℕ) (s : State World) (rest : List ℕ)
      → remove p s.request_list ≡ some rest
      → (s.heap p).ucx_request_data_transfer ≡ 0
      → (s.heap p).ucx_request_flag_transfer ≡ 0
      → Returns (mpiopt_request_free_internal p s) λ _. Freed p rest s
  unfolding mpiopt_request_free_internal
  mpiopt_request_free_internal_lem p s rest e no_data no_flag =
      elim (Bool-cases (is_connected (s.heap p).type)) [
        | inl c ↦ rw (bind_remove p s rest _ e) (
            simp (run, c, no_data, no_flag)
              (record { calls = rw c; active = refl; deferred = refl; same = λ q. refl }))
        | inr c ↦ rw (bind_remove p s rest _ e) (
            simp (run, c)
              (record { calls = rw c; active = refl; deferred = refl; same = λ q. refl }))
      ]

  -- Where the last active request, with no pending transfer, is given up and `MPIOPT_FINALIZE`
  -- follows, the former unmaps the data's memory of this request if it is connected, and the latter
  -- the flag's memory of each connected request, this one first and then the deferred ones in the
  -- order of their list. Nothing else is unmapped.
  pub unmapped-finalize :
      (p : ℕ) (s : State World)
      → s.request_list ≡ p ∷ []
      → (s.heap p).ucx_request_data_transfer ≡ 0
      → (s.heap p).ucx_request_flag_transfer ≡ 0
      → Returns ((do mpiopt_request_free_internal p; mpiopt_finalize) s) λ _ s'.
        unmapped s'.log
        ≡ flag_handles s.heap (p ∷ s.to_free_list) ++ (data_handles (s.heap p) ++ unmapped s.log)
  unmapped-finalize p s active no_data no_flag =
      Returns-bind _ _ (mpiopt_request_free_internal p) _ s
        (mpiopt_request_free_internal_lem p s [] (rw active (remove_self p [])) no_data no_flag)
        λ _ t h.
          Returns-map _
            (λ _ s'.
              unmapped s'.log
              ≡ flag_handles s.heap (p ∷ s.to_free_list)
                ++ (data_handles (s.heap p) ++ unmapped s.log))
            (mpiopt_finalize t)
            (λ _ u e.
              ap unmapped (
                e
                ∙ simp (
                  h.deferred,
                  h.calls,
                  release_all_calls-same s.heap t.heap (p ∷ s.to_free_list) h.same,
                ))
              ∙ unmapped-lifetime s.heap (p ∷ s.to_free_list) (s.heap p) s.log)
            (mpiopt_finalize_lem t [] h.active)
