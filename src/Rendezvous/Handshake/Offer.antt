-- ===== src/Rendezvous/Handshake/Offer.antt =====
-- What `send_rdma_info` tells the library and the other side.
use mathlib.Core.Path.{fun_ext}
use mpi_comp_match.Base.{ℕ, ◌≡◌, refl, true, List, ◌∷◌, ==_self}
use mpi_comp_match.Rendezvous.Request.{Request, sizeof_int}
use mpi_comp_match.Rendezvous.Library.{
  Library, Reply, bytes, ucp_mem_map, ucp_rkey_pack, ucp_rkey_buffer_release, mpi_issend, ucs_ok,
}
use mpi_comp_match.Rendezvous.Machine.{
  State, Returns, ◌>>=◌, ◌>>◌, call, modify, pure, actions, update_self,
}
use mpi_comp_match.Rendezvous.Handshake.{is_searching, comm_to_send, map_and_pack, send_rdma_info}
use mpi_comp_match.Rendezvous.Handshake.Message.{message}
use mpi_comp_match.Rendezvous.Handshake.RoundTrip.{length-message}

-- Memory can be registered and its key packed: both calls answer UCS_OK.
pub record MapsMemory {World : Type 0} (lib : Library World) : Type 0 where
  pub maps :
      (address size : ℕ) (w : World) → (lib.perform (ucp_mem_map address size) w).0.value ≡ ucs_ok
  pub packs : (memh : ℕ) (w : World) → (lib.perform (ucp_rkey_pack memh) w).0.value ≡ ucs_ok

-- The answers of the four calls that map and pack.
module _ {World : Type 0} (lib : Library World) (s : State World) (p : ℕ) where
  abbrev pub mapped_data : Reply × World
  mapped_data = lib.perform (ucp_mem_map (s.heap p).buf (s.heap p).size) s.world

  abbrev pub packed_data : Reply × World
  packed_data = lib.perform (ucp_rkey_pack mapped_data.0.handle) mapped_data.1

  abbrev pub mapped_flag : Reply × World
  mapped_flag = lib.perform (ucp_mem_map (lib.flag_address p) sizeof_int) packed_data.1

  abbrev pub packed_flag : Reply × World
  packed_flag = lib.perform (ucp_rkey_pack mapped_flag.0.handle) mapped_flag.1

  -- The message that carries both addresses and the keys that the library has packed.
  abbrev pub offer : List ℕ
  offer =
      message (s.heap p).buf (lib.flag_address p) packed_data.0.delivered packed_flag.0.delivered

-- The buffer and the flag are mapped and their keys packed, that message is sent, and the packed
-- keys are released. The request keeps the handles of both mappings and the message.
pub record HasOffered {World : Type 0} (lib : Library World) (p : ℕ) (s s' : State World)
    : Type 0 where
  pub calls :
      s'.log
      ≡ ucp_rkey_buffer_release (packed_data lib s p).0.delivered
        ∷ ucp_rkey_buffer_release (packed_flag lib s p).0.delivered
        ∷ mpi_issend
            (bytes (offer lib s p))
            (s.heap p).dest
            (s.heap p).tag
            (comm_to_send (s.heap p).type)
        ∷ ucp_rkey_pack (mapped_flag lib s p).0.handle
        ∷ ucp_mem_map (lib.flag_address p) sizeof_int
        ∷ ucp_rkey_pack (mapped_data lib s p).0.handle
        ∷ ucp_mem_map (s.heap p).buf (s.heap p).size
        ∷ s.log
  pub mem_handle_data : (s'.heap p).mem_handle_data ≡ (mapped_data lib s p).0.handle
  pub mem_handle_flag : (s'.heap p).mem_handle_flag ≡ (mapped_flag lib s p).0.handle
  pub rdma_info_buf : (s'.heap p).rdma_info_buf ≡ offer lib s p

module _ {World : Type 0} ⦃lib : Library World⦄ (library : MapsMemory lib) where
  -- With both answers UCS_OK the assertions pass.
  pub map_and_pack_lem :
      (address size p : ℕ) (keep : ℕ → Request → Request)
      → map_and_pack {World = World} address size keep p ≡ (do
        mapped ← call (ucp_mem_map address size)
        modify p (keep mapped.handle)
        packed ← call (ucp_rkey_pack mapped.handle)
        pure packed.delivered)
  unfolding map_and_pack actions
  map_and_pack_lem address size p keep =
      fun_ext λ s. simp (◌>>=◌, library.maps) (simp (◌>>=◌, library.packs))

  -- Where memory can be registered and its key packed, `send_rdma_info` of a request that searches for
  -- its connection passes its assertions. It maps the buffer and the flag, packs both keys, sends one
  -- message with both addresses and the keys as the library has packed them to the partner, on the
  -- communicator of its direction, keeps that message and the handles of both mappings in the
  -- request, and releases the packed keys.
  pub send_rdma_info-HasOffered :
      (s : State World) (p : ℕ)
      → is_searching (s.heap p).type ≡ true
      → Returns (send_rdma_info p s) λ _. HasOffered lib p s
  unfolding send_rdma_info actions
  send_rdma_info-HasOffered s p searching =
      simp (searching, map_and_pack_lem)
        (simp (◌>>=◌, length-message, ==_self, update_self)
          (record {
            calls = refl;
            mem_handle_data = simp update_self;
            mem_handle_flag = simp update_self;
            rdma_info_buf = simp update_self;
          }))
