-- ===== src/Tests/Waits.antt =====
-- A library whose transfers take some progress, and the creation of requests.
use mpi_comp_match.Base.{ℕ, ◌+◌, ◌-◌, ◌*◌, ◌≤◌, refl, List, [], ◌∷◌, ◌==◌, if◌then◌else◌, arith}
use mpi_comp_match.Rendezvous.Request.{send_request_type}
use mpi_comp_match.Rendezvous.Library.{Library, Call, ucp_worker_progress, ucp_request_check_status}
use mpi_comp_match.Rendezvous.Machine.{State, flag_after}
use mpi_comp_match.Rendezvous.Lifecycle.{zeroed}
use mpi_comp_match.Rendezvous.Wait.Complete.{Completes}

-- The state is the number of rounds that are left; the last one writes the flag of request 1.
abbrev status : Call → ℕ → ℕ
status (ucp_request_check_status h) rounds = if rounds == 0 then 0 else 1
status _ rounds = 0

abbrev rounds_after : Call → ℕ → ℕ
rounds_after ucp_worker_progress rounds = rounds - 1
rounds_after _ rounds = rounds

abbrev landed : Call → ℕ → List (ℕ × ℕ)
landed ucp_worker_progress rounds = if rounds == 1 then (1, 6) ∷ [] else []
landed _ rounds = []

abbrev slow : Library ℕ
slow = record {
  perform = λ c w. (
    record { value = status c w; handle = 7; delivered = []; writes = landed c w },
    rounds_after c w,
  );
  flag_address = λ p. 4096 + p;
}

stays_written : (c : Call) (w v : ℕ) → 6 ≤ v → 6 ≤ flag_after (landed c w) 1 v
unfolding flag_after
stays_written ucp_worker_progress w v h = ground arith
stays_written _ w v h = h

slow-Completes : Completes slow 1 (2 * 2 + 2)
unfolding flag_after
slow-Completes = record {
  left = λ w. w;
  progresses = λ w. omega arith;
  checks = λ h w. refl;
  frees = λ h w. refl;
  flushed = λ h w e. ground arith;
  stays = stays_written;
  arrives = λ w v pos e. ground arith;
}

abbrev pending : State ℕ
pending = record {
  heap = λ p. record zeroed {
    type = send_request_type;
    flag = 4;
    operation_number = 2;
    ucx_request_data_transfer = 8;
    ucx_request_flag_transfer = 9;
  };
  request_list = 1 ∷ [];
  to_free_list = [];
  crosstalk_counter = 0;
  world = 3;
  log = [];
}
