-- ===== src/Rendezvous/Frame/Progress.antt =====
-- The functions that progress requests, and the transfers, keep the frame.
use mpi_comp_match.Base.{ℕ, zero, suc, refl, Bool, true, false, List, [], ◌∷◌}
use mpi_comp_match.Machine.Preserves.{
  Preserves-bind, Preserves-when, Preserves-assert, Preserves-get,
}
use mpi_comp_match.Rendezvous.Request.{RequestType, uninitialized}
use mpi_comp_match.Rendezvous.Library.{Library}
use mpi_comp_match.Rendezvous.Machine.{M, modify}
use mpi_comp_match.Rendezvous.Transfer.{b_send, b_recv, progress_recv_request}
use mpi_comp_match.Rendezvous.Handshake.Message.{read_word}
use mpi_comp_match.Rendezvous.Handshake.{
  read_rdma_info, test_rdma_exchange, wait_for_exchange, receive_rdma_info,
}
use mpi_comp_match.Rendezvous.Progress.{
  test_backup, look_for_handshake, post_matching_recv, progress_request_waiting_for_rdma,
  progress_as, progress_request, progress_list, progress_other_requests,
}
use mpi_comp_match.Rendezvous.Frame.Rules.{
  Keeps, Frame-Preorder, Keeps-load, Keeps-call, Keeps-modify, frame_rules,
}

module _ {World : Type 0} where
  -- the assignments of the fields outside the frame
  flag-Keeps : (p v : ℕ) → Keeps (modify {World = World} p (λ r. record r { flag = v }))
  flag-Keeps p v = Keeps-modify p _ (λ r. refl)

  flag_buffer-Keeps :
      (p v : ℕ) → Keeps (modify {World = World} p (λ r. record r { flag_buffer = v }))
  flag_buffer-Keeps p v = Keeps-modify p _ (λ r. refl)

  data_transfer-Keeps :
      (p v : ℕ) → Keeps (modify {World = World} p (λ r. record r { ucx_request_data_transfer = v }))
  data_transfer-Keeps p v = Keeps-modify p _ (λ r. refl)

  flag_transfer-Keeps :
      (p v : ℕ) → Keeps (modify {World = World} p (λ r. record r { ucx_request_flag_transfer = v }))
  flag_transfer-Keeps p v = Keeps-modify p _ (λ r. refl)

  data_addr-Keeps :
      (p v : ℕ) → Keeps (modify {World = World} p (λ r. record r { remote_data_addr = v }))
  data_addr-Keeps p v = Keeps-modify p _ (λ r. refl)

  flag_addr-Keeps :
      (p v : ℕ) → Keeps (modify {World = World} p (λ r. record r { remote_flag_addr = v }))
  flag_addr-Keeps p v = Keeps-modify p _ (λ r. refl)

  data_rkey-Keeps :
      (p v : ℕ) → Keeps (modify {World = World} p (λ r. record r { remote_data_rkey = v }))
  data_rkey-Keeps p v = Keeps-modify p _ (λ r. refl)

  flag_rkey-Keeps :
      (p v : ℕ) → Keeps (modify {World = World} p (λ r. record r { remote_flag_rkey = v }))
  flag_rkey-Keeps p v = Keeps-modify p _ (λ r. refl)

  backup-Keeps : (p v : ℕ) → Keeps (modify {World = World} p (λ r. record r { backup_request = v }))
  backup-Keeps p v = Keeps-modify p _ (λ r. refl)

  exchange-Keeps :
      (p v : ℕ)
      → Keeps (modify {World = World} p (λ r. record r { rdma_exchange_request_send = v }))
  exchange-Keeps p v = Keeps-modify p _ (λ r. refl)

ruleset assignments = (
  flag-Keeps, flag_buffer-Keeps, data_transfer-Keeps, flag_transfer-Keeps, data_addr-Keeps,
  flag_addr-Keeps, data_rkey-Keeps, flag_rkey-Keeps, backup-Keeps, exchange-Keeps,
)

module _ {World : Type 0} ⦃lib : Library World⦄ where
  abbrev Keeps_ : {A : Type 0} → M World A → Type 0
  Keeps_ = Keeps {World = World}

  progress_recv_request-Keeps : (p : ℕ) → Keeps_ (progress_recv_request p)
  unfolding progress_recv_request
  progress_recv_request-Keeps p = search (frame_rules, assignments) depth 30

  b_send-Keeps : (p : ℕ) → Keeps_ (b_send p)
  unfolding b_send
  b_send-Keeps p = search (frame_rules, assignments) depth 30

  b_recv-Keeps : (p : ℕ) → Keeps_ (b_recv p)
  unfolding b_recv
  b_recv-Keeps p = search (frame_rules, assignments) depth 30

  read_word-Keeps : (bytes : List ℕ) (position : ℕ) → Keeps_ (read_word bytes position)
  unfolding read_word
  read_word-Keeps bytes position = search frame_rules

  read_rdma_info-Keeps : (p count : ℕ) (buf : List ℕ) → Keeps_ (read_rdma_info p count buf)
  unfolding read_rdma_info
  read_rdma_info-Keeps p count buf = search (frame_rules, assignments, read_word-Keeps) depth 40

  test_rdma_exchange-Keeps : (p : ℕ) → Keeps_ (test_rdma_exchange p)
  unfolding test_rdma_exchange
  test_rdma_exchange-Keeps p = search (frame_rules, assignments) depth 10

  test_backup-Keeps : (p : ℕ) → Keeps_ (test_backup p)
  unfolding test_backup
  test_backup-Keeps p = search (frame_rules, assignments) depth 10

  post_matching_recv-Keeps : (p : ℕ) → Keeps_ (post_matching_recv p)
  unfolding post_matching_recv
  post_matching_recv-Keeps p = search (frame_rules, assignments) depth 20

  -- The functions that progress the others keep the frame where that progress does.
  module _ (others : ℕ → M World (Unit {0})) (others-Keeps : (q : ℕ) → Keeps (others q))
      (fuel : ℕ) where
    wait_for_exchange-Keeps :
        (rounds p : ℕ) (flag : Bool) → Keeps_ (wait_for_exchange others rounds p flag)
    unfolding wait_for_exchange
    wait_for_exchange-Keeps rounds p true = search frame_rules
    wait_for_exchange-Keeps zero p false = search frame_rules
    wait_for_exchange-Keeps (suc rounds) p false =
        search
          (frame_rules, others-Keeps, test_rdma_exchange-Keeps, wait_for_exchange-Keeps rounds p)

    receive_rdma_info-Keeps : (p : ℕ) → Keeps_ (receive_rdma_info others fuel p)
    unfolding receive_rdma_info
    receive_rdma_info-Keeps p =
        search
          (
            frame_rules,
            read_rdma_info-Keeps,
            test_rdma_exchange-Keeps,
            wait_for_exchange-Keeps fuel p,
          )
          depth 20

    look_for_handshake-Keeps : (p : ℕ) → Keeps_ (look_for_handshake others fuel p)
    unfolding look_for_handshake
    look_for_handshake-Keeps p = Preserves-bind _ _ (Keeps-load p) λ r. Preserves-when _ _ (
        Preserves-bind _ _ (Preserves-assert _) (λ _.
          Preserves-bind _ _ (Keeps-call _) (λ _. Preserves-when _ _ (receive_rdma_info-Keeps p))))

    pub progress_request_waiting_for_rdma-Keeps :
        (p : ℕ) → Keeps_ (progress_request_waiting_for_rdma others fuel p)
    unfolding progress_request_waiting_for_rdma
    progress_request_waiting_for_rdma-Keeps p =
        search (frame_rules, look_for_handshake-Keeps p, post_matching_recv-Keeps p)

    progress_as-Keeps : (type : RequestType) (p : ℕ) → Keeps_ (progress_as type others fuel p)
    unfolding progress_as
    progress_as-Keeps uninitialized p = search frame_rules
    progress_as-Keeps _ p = search (
      frame_rules,
      progress_recv_request-Keeps p,
      progress_request_waiting_for_rdma-Keeps p,
      test_backup-Keeps p,
    )

    progress_request-Keeps : (p : ℕ) → Keeps_ (progress_request others fuel p)
    unfolding progress_request
    progress_request-Keeps p = Preserves-bind _ _ (Keeps-load p) (λ r. progress_as-Keeps r.type p)

    progress_list-Keeps : (current : ℕ) (l : List ℕ) → Keeps_ (progress_list others fuel current l)
    unfolding progress_list
    progress_list-Keeps current [] = search frame_rules
    progress_list-Keeps current (q ∷ rest) =
        Preserves-bind _ _ (Preserves-when _ _ (progress_request-Keeps q))
          (λ _. progress_list-Keeps current rest)

  -- Whatever the library answers and however the handshakes nest, where it returns, progress of the other requests
  -- changes of no request its type, operation number, buffer, size, tag, partner, communicator,
  -- endpoint, memory handles or handshake bytes, and neither list.
  pub progress_other_requests-Keeps :
      (fuel current : ℕ) → Keeps_ (progress_other_requests fuel current)
  unfolding progress_other_requests
  progress_other_requests-Keeps zero current = search frame_rules
  progress_other_requests-Keeps (suc fuel) current = Preserves-bind _ _ (Preserves-get _) (
      progress_list-Keeps (progress_other_requests fuel) (progress_other_requests-Keeps fuel) fuel
        current)
