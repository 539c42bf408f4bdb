-- ===== src/Rendezvous/Wait/Hang.antt =====
-- A receive that takes the fallback already in `MPIOPT_Start` never leaves `MPIOPT_Wait`.
use mpi_comp_match.Base.{ℕ, zero, suc, ◌≡◌, refl, false, [], ◌∷◌, ◌==◌, ◌<◌, ◌∙◌, ==_self, arith}
use mpi_comp_match.Rendezvous.Request.{
  recv_request_type_search_for_rdma_connection, comm_world, handshake_communicator,
}
use mpi_comp_match.Rendezvous.Library.{Library, Call, mpi_iprobe, mpi_irecv}
use mpi_comp_match.Rendezvous.Machine.{
  M, State, fault, Returns, land, when, out_of_fuel, ◌>>=◌, ◌>>◌, update_self,
}
use mpi_comp_match.Rendezvous.Machine.Run.{run, bind_fault, fault-bind}
use mpi_comp_match.Rendezvous.Progress.{
  look_for_handshake, post_matching_recv, progress_request_waiting_for_rdma, progress_list,
  post_backup_recv, progress_other_requests,
}
use mpi_comp_match.Rendezvous.Start.{
  mpiopt_start_recv_internal, next_operation, start_recv_as,
  start_recv_when_searching_for_connection,
}
use mpi_comp_match.Rendezvous.Wait.{
  wait_recv_loop, wait_recv_as, wait_recv_when_searching_for_connection, mpiopt_wait_recv_internal,
}

-- The sender uses no persistent operation, so no handshake comes; and it sends one message with
-- this tag. Once a receive has been posted for that message, MPI_Iprobe no longer finds it.
pub record OneMessage {World : Type 0} (lib : Library World) : Type 1 where
  pub Matched : World → Type 0
  pub no_handshake :
      (dest tag : ℕ) (w : World)
      → (lib.perform (mpi_iprobe dest tag handshake_communicator) w).0.value ≡ 0
  pub by_recv :
      (buf size dest tag : ℕ) (w : World)
      → Matched (lib.perform (mpi_irecv buf size dest tag comm_world) w).1
  pub stays : (c : Call) (w : World) → Matched w → Matched (lib.perform c w).1
  pub hidden :
      (dest tag : ℕ) (w : World)
      → Matched w
      → (lib.perform (mpi_iprobe dest tag comm_world) w).0.value ≡ 0

module _ {World : Type 0} ⦃lib : Library World⦄ where
  -- With no other request there is nothing to progress.
  pub progress_alone :
      {B : Type 0} (n p : ℕ) (s : State World) (f : Unit {0} → M World B)
      → 0 < n
      → s.request_list ≡ p ∷ []
      → (progress_other_requests n p >>= f) s ≡ f tt s
  unfolding progress_other_requests progress_list
  progress_alone zero p s f h alone = elim h [ ]
  progress_alone (suc n) p s f h alone = simp (run, alone, ==_self)

  progress_none :
      {B : Type 0} (p : ℕ) (s : State World) (f : Unit {0} → M World B)
      → (progress_other_requests zero p >>= f) s ≡ fault out_of_fuel
  unfolding progress_other_requests
  progress_none p s f = simp run

  pub record Stuck (once : OneMessage lib) (p : ℕ) (s : State World) : Type 0 where
    pub type : (s.heap p).type ≡ recv_request_type_search_for_rdma_connection
    pub unconnected : (s.heap p).remote_data_addr ≡ 0
    pub alone : s.request_list ≡ p ∷ []
    pub matched : once.Matched s.world
    pub comm : (s.heap p).comm ≡ comm_world

  -- The state after a library call.
  abbrev pub after : Call → State World → State World
  after c s = record s {
    heap = land (lib.perform c s.world).0.writes s.heap;
    world = (lib.perform c s.world).1;
    log = c ∷ s.log;
  }

  Stuck-after :
      (once : OneMessage lib) (p : ℕ) (c : Call) (s : State World)
      → Stuck once p s
      → Stuck once p (after c s)
  Stuck-after once p c s h = record {
    type = h.type;
    unconnected = h.unconnected;
    alone = h.alone;
    matched = once.stays c s.world h.matched;
    comm = h.comm;
  }

  -- The two probes of one round.
  abbrev probed : ℕ → State World → State World
  probed p s =
      after (mpi_iprobe (s.heap p).dest (s.heap p).tag handshake_communicator)
        (after (mpi_iprobe (s.heap p).dest (s.heap p).tag comm_world) s)

  wait_recv_round :
      (once : OneMessage lib) (n p : ℕ) (s : State World)
      → 0 < n
      → Stuck once p s
      → wait_recv_loop (suc n) p false s ≡ wait_recv_loop n p false (probed p s)
  unfolding wait_recv_loop progress_request_waiting_for_rdma look_for_handshake post_matching_recv
      when
  wait_recv_round once n p s pos h =
      simp (run, h.unconnected, h.comm)
        (simp (run, progress_alone, pos, h.alone, h.unconnected)
          (simp (run, h.type, h.unconnected, once.no_handshake, once.hidden _ _ _ h.matched)))

  wait_recv_loop-Stuck :
      (once : OneMessage lib) (fuel p : ℕ) (s : State World)
      → Stuck once p s
      → wait_recv_loop fuel p false s ≡ fault out_of_fuel
  unfolding wait_recv_loop when
  wait_recv_loop-Stuck once zero p s h = simp run
  wait_recv_loop-Stuck once (suc zero) p s h = simp (run, h.unconnected) (simp (run, progress_none))
  wait_recv_loop-Stuck once (suc (suc n)) p s h =
      wait_recv_round once (suc n) p s (omega arith) h
      ∙ wait_recv_loop-Stuck once (suc n) p (probed p s)
          (Stuck-after once p _ _ (Stuck-after once p _ _ h))

  pub record Fresh (p : ℕ) (s : State World) : Type 0 where
    pub type : (s.heap p).type ≡ recv_request_type_search_for_rdma_connection
    pub unconnected : (s.heap p).remote_data_addr ≡ 0
    pub alone : s.request_list ≡ p ∷ []
    pub comm : (s.heap p).comm ≡ comm_world
    pub unused : (s.heap p).operation_number ≡ 0
    pub no_backup : (s.heap p).backup_request ≡ 0

  -- The payload is there when `MPIOPT_Start` probes for it.
  abbrev pub Arrived : ℕ → State World → Type 0
  Arrived p s =
      ((lib.perform (mpi_iprobe (s.heap p).dest (s.heap p).tag comm_world)
          (after (mpi_iprobe (s.heap p).dest (s.heap p).tag handshake_communicator)
            s).world).0.value
        == 0)
      ≡ false

  start-Stuck :
      (once : OneMessage lib) (fuel p : ℕ) (s : State World)
      → Fresh p s
      → Arrived p s
      → Returns
          (mpiopt_start_recv_internal fuel p s)
          λ _ t. Stuck once p t × ((t.heap p).operation_number ≡ 1)
  unfolding mpiopt_start_recv_internal next_operation start_recv_as
      start_recv_when_searching_for_connection progress_request_waiting_for_rdma look_for_handshake
      post_matching_recv post_backup_recv when
  start-Stuck once fuel p s h arrived =
      simp (run, h.unused, h.type, h.unconnected)
        (simp (run, h.type, h.unconnected, h.comm, once.no_handshake)
          (simp (run, h.comm, h.no_backup, arrived)
            (
              record {
                type = simp update_self h.type;
                unconnected = simp update_self h.unconnected;
                alone = h.alone;
                matched = once.by_recv _ _ _ _ _;
                comm = simp update_self h.comm;
              },
              refl,
            )))

  wait-Stuck :
      (once : OneMessage lib) (fuel p : ℕ) (s : State World)
      → Stuck once p s
      → (s.heap p).operation_number ≡ 1
      → mpiopt_wait_recv_internal fuel p 0 s ≡ fault out_of_fuel
  unfolding mpiopt_wait_recv_internal wait_recv_as wait_recv_when_searching_for_connection
  wait-Stuck once fuel p s h first =
      simp (run, h.type, first)
        (bind_fault (wait_recv_loop fuel p false) _ s out_of_fuel
          (wait_recv_loop-Stuck once fuel p s h))

  -- A receive whose sender uses no persistent operation hangs if the sender's only message comes in
  -- between the two probes of `MPIOPT_Start`: the handshake's probe fails and the payload's succeeds.
  -- The start posts the receive for the payload, which MPI_Iprobe does not find again, and the loop
  -- of `MPIOPT_Wait` probes for it under every bound on its rounds. The process has no other request.
  pub fallback_in_start_hangs :
      (once : OneMessage lib) (fuel rounds p : ℕ) (s : State World)
      → Fresh p s
      → Arrived p s
      → (do mpiopt_start_recv_internal fuel p; mpiopt_wait_recv_internal rounds p 0) s
        ≡ fault out_of_fuel
  fallback_in_start_hangs once fuel rounds p s h arrived =
      fault-bind (mpiopt_start_recv_internal fuel p) (λ _. mpiopt_wait_recv_internal rounds p 0) s
        out_of_fuel _ (start-Stuck once fuel p s h arrived)
        λ _ t k. wait-Stuck once rounds p t k.0 k.1
