-- ===== src/Rendezvous/Wait/Complete.antt =====
-- The wait of a connected sender, once the transfers and the receiver complete.
use mpi_comp_match.Base.{
  ℕ, zero, suc, ◌+◌, ◌-◌, ◌*◌, ◌≤◌, ◌<◌, ◌≡◌, true, false, [], ◌∷◌, ◌==◌, inl, inr, Bool-cases,
  arith, ==_iff,
}
use mpi_comp_match.Machine.{int_limit}
use mpi_comp_match.Rendezvous.Request.{}
use mpi_comp_match.Rendezvous.Library.{
  Library, Call, ucp_worker_progress, ucp_request_check_status, ucp_request_free, ucs_inprogress,
}
use mpi_comp_match.Rendezvous.Machine.{State, Returns, flag_after, when}
use mpi_comp_match.Rendezvous.Machine.Run.{run, Returns-bind, Returns-map}
use mpi_comp_match.Rendezvous.Transfer.{wait_while_in_progress, wait_for_completion_blocking}
use mpi_comp_match.Rendezvous.Wait.Hang.{after}

-- A measure of the library's state goes down with each progress of the worker, and no status check
-- and no free changes it. At 0 no flush is in progress. The progress that takes it to 0 carries out
-- the receiver's put of `finished` to the flag of the request, and no call writes a lower value over
-- one that is as high.
pub record Completes {World : Type 0} (lib : Library World) (p finished : ℕ) : Type 1 where
  pub left : World → ℕ
  pub progresses : (w : World) → left (lib.perform ucp_worker_progress w).1 ≤ left w - 1
  pub checks : (h : ℕ) (w : World) → left (lib.perform (ucp_request_check_status h) w).1 ≡ left w
  pub frees : (h : ℕ) (w : World) → left (lib.perform (ucp_request_free h) w).1 ≡ left w
  pub flushed :
      (h : ℕ) (w : World)
      → left w ≡ 0
      → ((lib.perform (ucp_request_check_status h) w).0.value == ucs_inprogress) ≡ false
  pub stays :
      (c : Call) (w : World) (v : ℕ)
      → finished ≤ v
      → finished ≤ flag_after (lib.perform c w).0.writes p v
  pub arrives :
      (w : World) (v : ℕ)
      → 0 < left w
      → left (lib.perform ucp_worker_progress w).1 ≡ 0
      → finished ≤ flag_after (lib.perform ucp_worker_progress w).0.writes p v

module _ {World : Type 0} ⦃lib : Library World⦄ (p n : ℕ) (small : n * 2 + 2 < int_limit)
    (completes : Completes lib p (n * 2 + 2)) where
  -- Operation n of the only request is under way, with the measure at most `most`.
  pub record Waits (most d f : ℕ) (s : State World) : Type 0 where
    pub op : (s.heap p).operation_number ≡ n
    pub alone : s.request_list ≡ p ∷ []
    pub most_left : completes.left s.world ≤ most
    pub written : completes.left s.world ≡ 0 → n * 2 + 2 ≤ (s.heap p).flag
    pub data_transfer : (s.heap p).ucx_request_data_transfer ≡ d
    pub flag_transfer : (s.heap p).ucx_request_flag_transfer ≡ f

  written_by_progress :
      (most d f : ℕ) (s : State World)
      → Waits most d f s
      → completes.left (after ucp_worker_progress s).world ≡ 0
      → n * 2 + 2 ≤ ((after ucp_worker_progress s).heap p).flag
  written_by_progress most d f s h e = elim (Bool-cases (completes.left s.world == 0)) [
    | inl z ↦ completes.stays _ s.world _ (h.written ((==_iff _ _).0 z))
    | inr nz ↦ completes.arrives s.world _ (ground (arith, nz)) e
  ]

  pub Waits-progress :
      (most d f : ℕ) (s : State World)
      → Waits most d f s
      → Waits (most - 1) d f (after ucp_worker_progress s)
  Waits-progress most d f s h = record {
    op = h.op;
    alone = h.alone;
    most_left = omega (arith, completes.progresses s.world, h.most_left);
    written = written_by_progress most d f s h;
    data_transfer = h.data_transfer;
    flag_transfer = h.flag_transfer;
  }

  Waits-check :
      (handle most d f : ℕ) (s : State World)
      → Waits most d f s
      → Waits most d f (after (ucp_request_check_status handle) s)
  Waits-check handle most d f s h = record {
    op = h.op;
    alone = h.alone;
    most_left = rw completes.checks h.most_left;
    written = λ e. completes.stays _ s.world _ (h.written (rw completes.checks at e));
    data_transfer = h.data_transfer;
    flag_transfer = h.flag_transfer;
  }

  Waits-free :
      (handle most d f : ℕ) (s : State World)
      → Waits most d f s
      → Waits most d f (after (ucp_request_free handle) s)
  Waits-free handle most d f s h = record {
    op = h.op;
    alone = h.alone;
    most_left = rw completes.frees h.most_left;
    written = λ e. completes.stays _ s.world _ (h.written (rw completes.frees at e));
    data_transfer = h.data_transfer;
    flag_transfer = h.flag_transfer;
  }

  pub Waits-weaken :
      (more most d f : ℕ) (s : State World) → most ≤ more → Waits most d f s → Waits more d f s
  Waits-weaken more most d f s e h = record {
    op = h.op;
    alone = h.alone;
    most_left = omega (arith, h.most_left);
    written = h.written;
    data_transfer = h.data_transfer;
    flag_transfer = h.flag_transfer;
  }

  -- One round of the loop that polls a flush.
  abbrev polled : ℕ → State World → State World
  polled handle s = after (ucp_request_check_status handle) (after ucp_worker_progress s)

  Waits-polled :
      (handle most d f : ℕ) (s : State World)
      → Waits most d f s
      → Waits (most - 1) d f (polled handle s)
  Waits-polled handle most d f s h =
      Waits-check handle (most - 1) d f _ (Waits-progress most d f s h)

  wait_while_in_progress-Waits :
      (fuel handle most d f : ℕ) (s : State World)
      → most < fuel
      → Waits most d f s
      → Returns (wait_while_in_progress fuel handle s) λ _. Waits most d f
  unfolding wait_while_in_progress when
  wait_while_in_progress-Waits zero handle most d f s e h = absurd (omega (arith, e))
  wait_while_in_progress-Waits (suc fuel) handle most d f s e h =
      elim (Bool-cases (
        (lib.perform (ucp_request_check_status handle) (after ucp_worker_progress s).world).0.value
        == ucs_inprogress)) [
          | inl b ↦
              simp (run, b)
                (Returns-map (λ _. Waits (most - 1) d f) (λ _. Waits most d f)
                  (wait_while_in_progress fuel handle (polled handle s))
                  (λ _ t k. Waits-weaken most (most - 1) d f t (omega arith) k)
                  (wait_while_in_progress-Waits fuel handle (most - 1) d f (polled handle s)
                    (omega (arith, e, under_way b)) (Waits-polled handle most d f s h)))
          | inr b ↦
              simp (run, b)
                (Waits-weaken most (most - 1) d f (polled handle s) (omega arith)
                  (Waits-polled handle most d f s h))
        ]
    where
      under_way :
          ((lib.perform
                (ucp_request_check_status handle)
                (after ucp_worker_progress s).world).0.value
              == ucs_inprogress)
            ≡ true
          → 0 < most
      under_way b = ground (
        arith,
        b,
        completes.flushed handle (after ucp_worker_progress s).world,
        (Waits-progress most d f s h).most_left,
      )

  pub wait_for_completion_blocking-Waits :
      (fuel handle most d f : ℕ) (s : State World)
      → (handle == 0) ≡ false
      → most < fuel
      → Waits most d f s
      → Returns (wait_for_completion_blocking fuel handle s) λ _. Waits most d f
  unfolding wait_for_completion_blocking
  wait_for_completion_blocking-Waits fuel handle most d f s nz e h =
      simp (run, nz)
        (Returns-bind (λ _. Waits most d f) (λ _. Waits most d f)
          (wait_while_in_progress fuel handle) _ s
          (wait_while_in_progress-Waits fuel handle most d f s e h)
          λ _ t k. simp run (Waits-free handle most d f t k))
