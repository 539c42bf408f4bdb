-- ===== src/Rendezvous/Handshake.antt =====
-- `send_rdma_info` and `receive_rdma_info`: what each side tells the other before RDMA.
pub mod Message
pub mod RoundTrip
pub mod Offer
use mpi_comp_match.Base.{
  ℕ, zero, suc, ◌+◌, Bool, true, false, List, length, drop, ◌==◌, ◌||◌, if◌then◌else◌, not,
}
use mpi_comp_match.Rendezvous.Request.{
  Request, RequestType, uninitialized, recv_request_type, send_request_type,
  send_request_type_search_for_rdma_connection, recv_request_type_search_for_rdma_connection,
  send_request_type_use_fallback, recv_request_type_use_fallback, Comm, handshake_communicator,
  handshake_response_communicator, sizeof_int, sizeof_word,
}
use mpi_comp_match.Rendezvous.Library.{
  Library, bytes, ucp_mem_map, ucp_rkey_pack, ucp_rkey_buffer_release, ucp_ep_rkey_unpack,
  mpi_issend, mpi_probe, mpi_recv, mpi_test, ucs_ok,
}
use mpi_comp_match.Rendezvous.Machine.{
  M, out_of_fuel, ◌>>=◌, ◌>>◌, pure, fail, when, assert, load, modify, call, call_,
}
use Message.{message, message_size, read_word, receive_into}

abbrev pub is_searching : RequestType → Bool
is_searching send_request_type_search_for_rdma_connection = true
is_searching recv_request_type_search_for_rdma_connection = true
is_searching _ = false

-- The communicator that a handshake is sent on.
abbrev pub comm_to_send : RequestType → Comm
comm_to_send recv_request_type_search_for_rdma_connection = handshake_response_communicator
comm_to_send _ = handshake_communicator

-- The communicator that the handshake of the other side comes in on.
abbrev pub comm_to_receive : RequestType → Comm
comm_to_receive send_request_type_search_for_rdma_connection = handshake_response_communicator
comm_to_receive _ = handshake_communicator

module _ {World : Type 0} ⦃lib : Library World⦄ where
  -- Register memory and pack its remote key: the handle of the memory and the bytes of the key.
  unfoldable pub map_and_pack : ℕ → ℕ → (ℕ → Request → Request) → ℕ → M World (List ℕ)
  map_and_pack address size keep p = do
    mapped ← call (ucp_mem_map address size)
    modify p (keep mapped.handle)
    assert (mapped.value == ucs_ok)
    packed ← call (ucp_rkey_pack mapped.handle)
    assert (packed.value == ucs_ok)
    pure packed.delivered

  unfoldable pub send_rdma_info : ℕ → M World (Unit {0})
  unfolding map_and_pack
  send_rdma_info p = do
    r ← load p
    assert (is_searching r.type)
    let flag_ptr = lib.flag_address p
    let data_ptr = r.buf
    rkey_data ← map_and_pack r.buf r.size (λ h r. record r { mem_handle_data = h }) p
    rkey_flag ← map_and_pack flag_ptr sizeof_int (λ h r. record r { mem_handle_flag = h }) p
    let info = message data_ptr flag_ptr rkey_data rkey_flag
    modify p (λ r. record r { rdma_info_buf = info })
    assert (length info == message_size (length rkey_data) (length rkey_flag))
    r ← load p
    reply ← call (mpi_issend (bytes r.rdma_info_buf) r.dest r.tag (comm_to_send r.type))
    modify p (λ r. record r { rdma_exchange_request_send = reply.handle })
    call_ (ucp_rkey_buffer_release rkey_flag)
    call_ (ucp_rkey_buffer_release rkey_data)

  -- Read the handshake of the other side into the request.
  unfoldable pub read_rdma_info : ℕ → ℕ → List ℕ → M World (Unit {0})
  read_rdma_info p count buf = do
    rkey_size_data ← read_word buf 0
    rkey_size_flag ← read_word buf sizeof_word
    data_addr ← read_word buf (sizeof_word + sizeof_word)
    modify p (λ r. record r { remote_data_addr = data_addr })
    flag_addr ← read_word buf (sizeof_word + sizeof_word + sizeof_word)
    modify p (λ r. record r { remote_flag_addr = flag_addr })
    let at_data = sizeof_word + sizeof_word + sizeof_word + sizeof_word
    r ← load p
    key ← call (ucp_ep_rkey_unpack r.ep (drop at_data buf))
    modify p (λ r. record r { remote_data_rkey = key.handle })
    let at_flag = at_data + rkey_size_data + sizeof_word
    r ← load p
    key ← call (ucp_ep_rkey_unpack r.ep (drop at_flag buf))
    modify p (λ r. record r { remote_flag_rkey = key.handle })
    assert (count == at_flag + rkey_size_flag + sizeof_word)

  -- MPI_Test on the own handshake, which sets its handle
  unfoldable pub test_rdma_exchange : ℕ → M World Bool
  test_rdma_exchange p = do
    r ← load p
    reply ← call (mpi_test r.rdma_exchange_request_send)
    modify p (λ r. record r { rdma_exchange_request_send = reply.handle })
    pure (not (reply.value == 0))

  -- The `while` loop of `receive_rdma_info`; `others` progresses the other requests.
  unfoldable pub wait_for_exchange : (ℕ → M World (Unit {0})) → ℕ → ℕ → Bool → M World (Unit {0})
  wait_for_exchange others fuel p true = pure tt
  wait_for_exchange others zero p false = fail out_of_fuel
  wait_for_exchange others (suc fuel) p false = do
    others p
    flag ← test_rdma_exchange p
    wait_for_exchange others fuel p flag

  unfoldable pub receive_rdma_info : (ℕ → M World (Unit {0})) → ℕ → ℕ → M World (Unit {0})
  unfolding read_rdma_info test_rdma_exchange wait_for_exchange
  receive_rdma_info others fuel p = do
    r ← load p
    assert (is_searching r.type)
    status ← call (mpi_probe r.dest r.tag (comm_to_receive r.type))
    let count = status.value
    received ← call (mpi_recv count r.dest r.tag (comm_to_receive r.type))
    read_rdma_info p count (receive_into count received.delivered)
    flag ← test_rdma_exchange p
    wait_for_exchange others fuel p flag
