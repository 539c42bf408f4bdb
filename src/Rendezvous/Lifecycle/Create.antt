-- ===== src/Rendezvous/Lifecycle/Create.antt =====
-- What `MPIOPT_Send_init` and `MPIOPT_Recv_init` leave.
use mpi_comp_match.Base.{ℕ, ◌≡◌, refl, true, ◌∷◌, ==_self}
use mpi_comp_match.Rendezvous.Request.{
  RequestType, send_request_type_search_for_rdma_connection,
  recv_request_type_search_for_rdma_connection, comm_world,
}
use mpi_comp_match.Rendezvous.Library.{Library, mpi_byte}
use mpi_comp_match.Rendezvous.Machine.{State, Returns, modify, update_self, ◌>>◌}
use mpi_comp_match.Rendezvous.Machine.Run.{run}
use mpi_comp_match.Rendezvous.RequestList.{add_request_to_list}
use mpi_comp_match.Rendezvous.Handshake.{is_searching, send_rdma_info}
use mpi_comp_match.Rendezvous.Handshake.Offer.{MapsMemory}
use mpi_comp_match.Rendezvous.Handshake.RoundTrip.{length-message}
use mpi_comp_match.Rendezvous.Lifecycle.{
  zeroed, init_request, mpiopt_send_init_internal, mpiopt_recv_init_internal,
}

module _ {World : Type 0} where
  -- An unused request of this type, with these arguments, at the head of the active ones.
  pub record Created (type : RequestType) (p buf count dest tag : ℕ) (s s' : State World)
      : Type 0 where
    pub type_set : (s'.heap p).type ≡ type
    pub unused : (s'.heap p).operation_number ≡ 0
    pub unconnected : (s'.heap p).remote_data_addr ≡ 0
    pub no_backup : (s'.heap p).backup_request ≡ 0
    pub no_data : (s'.heap p).ucx_request_data_transfer ≡ 0
    pub no_flag : (s'.heap p).ucx_request_flag_transfer ≡ 0
    pub buf_set : (s'.heap p).buf ≡ buf
    pub size_set : (s'.heap p).size ≡ count
    pub dest_set : (s'.heap p).dest ≡ dest
    pub tag_set : (s'.heap p).tag ≡ tag
    pub active : s'.request_list ≡ p ∷ s.request_list
    pub deferred : s'.to_free_list ≡ s.to_free_list

module _ {World : Type 0} ⦃lib : Library World⦄ (library : MapsMemory lib) where
  -- The statements of both, for either type.
  init_as-Created :
      (type : RequestType) (buf count dest tag p : ℕ) (s : State World)
      → is_searching type ≡ true
      → Returns
          ((do
            modify p (λ r. zeroed)
            modify p (λ r. record r { type = type })
            init_request buf count mpi_byte dest tag comm_world p)
            s)
          λ _. Created type p buf count dest tag s
  unfolding init_request send_rdma_info add_request_to_list
  init_as-Created type buf count dest tag p s searching =
      simp (run, searching)
        (simp (run, library.maps)
          (simp (run, library.maps, library.packs)
            (simp (run, length-message, ==_self)
              (record {
                type_set = simp update_self;
                unused = simp update_self;
                unconnected = simp update_self;
                no_backup = simp update_self;
                no_data = simp update_self;
                no_flag = simp update_self;
                buf_set = simp update_self;
                size_set = simp update_self;
                dest_set = simp update_self;
                tag_set = simp update_self;
                active = refl;
                deferred = refl;
              }))))

  -- Where memory can be registered and its key packed, `MPIOPT_Send_init` and `MPIOPT_Recv_init` of
  -- bytes on MPI_COMM_WORLD pass every assertion and leave a request with their arguments that still
  -- searches for its connection, has done no operation and has nothing pending; it stands in front of
  -- the active requests, and the deferred ones stay.
  mpiopt_init_internal-Created :
      (buf count dest tag p : ℕ) (s : State World)
      → Returns
          (mpiopt_send_init_internal buf count mpi_byte dest tag comm_world p s)
          (λ _. Created send_request_type_search_for_rdma_connection p buf count dest tag s)
        × Returns
            (mpiopt_recv_init_internal buf count mpi_byte dest tag comm_world p s)
            (λ _. Created recv_request_type_search_for_rdma_connection p buf count dest tag s)
  unfolding mpiopt_send_init_internal mpiopt_recv_init_internal
  mpiopt_init_internal-Created buf count dest tag p s =
      (init_as-Created _ buf count dest tag p s refl, init_as-Created _ buf count dest tag p s refl)
