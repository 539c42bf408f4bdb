-- ===== src/Rendezvous/Transfer/Issued.antt =====
-- What the transfer functions issue, and a library that takes it.
use mpi_comp_match.Base.{ℕ, ◌+◌, ◌*◌, ◌≡◌, true, Bool, List, [], ◌∷◌, ◌==◌}
use mpi_comp_match.Rendezvous.Request.{Request}
use mpi_comp_match.Rendezvous.Library.{
  Library, Payload, Call, buffer, flag_word, ucp_put_nbi, ucp_get_nbi, ucp_worker_fence,
  ucp_ep_flush_nb, ucp_worker_progress,
}
use mpi_comp_match.Rendezvous.Machine.{is_no_error}

-- Put the data, then the flag of a finished operation.
abbrev pub push_calls : ℕ → Request → List Call
push_calls p r =
    ucp_worker_progress
    ∷ ucp_ep_flush_nb r.ep
    ∷ ucp_put_nbi r.ep (flag_word p (r.operation_number * 2 + 2)) r.remote_flag_addr
        r.remote_flag_rkey
    ∷ ucp_worker_fence
    ∷ ucp_put_nbi r.ep (buffer r.buf r.size) r.remote_data_addr r.remote_data_rkey
    ∷ []

-- Put the flag of an operation that has started.
abbrev pub offer_calls : ℕ → Request → List Call
offer_calls p r =
    ucp_worker_progress
    ∷ ucp_ep_flush_nb r.ep
    ∷ ucp_put_nbi r.ep (flag_word p (r.operation_number * 2 + 1)) r.remote_flag_addr
        r.remote_flag_rkey
    ∷ []

-- Get the data, then put the flag of a finished operation.
abbrev pub fetch_calls : ℕ → Request → List Call
fetch_calls p r =
    ucp_ep_flush_nb r.ep
    ∷ ucp_put_nbi r.ep (flag_word p (r.operation_number * 2 + 2)) r.remote_flag_addr
        r.remote_flag_rkey
    ∷ ucp_worker_fence
    ∷ ucp_get_nbi r.ep r.buf r.size r.remote_data_addr r.remote_data_rkey
    ∷ []

-- The flag says that the other side has started this operation.
abbrev pub remote_has_started : Request → Bool
remote_has_started r = r.flag == r.operation_number * 2 + 1

-- No put, get or fence answers with an error.
pub record NoError {World : Type 0} (lib : Library World) : Type 0 where
  pub puts :
      (ep : ℕ) (payload : Payload) (addr rkey : ℕ) (w : World)
      → is_no_error (lib.perform (ucp_put_nbi ep payload addr rkey) w).0.value ≡ true
  pub gets :
      (ep buf size addr rkey : ℕ) (w : World)
      → is_no_error (lib.perform (ucp_get_nbi ep buf size addr rkey) w).0.value ≡ true
  pub fences : (w : World) → is_no_error (lib.perform ucp_worker_fence w).0.value ≡ true
