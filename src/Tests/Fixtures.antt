-- ===== src/Tests/Fixtures.antt =====
-- A library that answers at once, and states of one process.
use mpi_comp_match.Base.{◌+◌, refl, [], ◌∷◌}
use mpi_comp_match.Rendezvous.Request.{
  Request, send_request_type, send_request_type_search_for_rdma_connection,
}
use mpi_comp_match.Rendezvous.Library.{Library}
use mpi_comp_match.Rendezvous.Machine.{State}
use mpi_comp_match.Rendezvous.Lifecycle.{zeroed}
use mpi_comp_match.Rendezvous.Handshake.Offer.{MapsMemory}
use mpi_comp_match.Rendezvous.Transfer.Issued.{NoError}

-- Every call answers 0, which is UCS_OK, with the handle 7 and three bytes.
abbrev pub quiet : Library (Unit {0})
quiet = record {
  perform = λ c w. (record { value = 0; handle = 7; delivered = 1 ∷ 2 ∷ 3 ∷ []; writes = [] }, w);
  flag_address = λ p. 4096 + p;
}

-- A connected request in operation 2, the other side having started.
abbrev pub ready : Request
ready = record zeroed {
  type = send_request_type;
  flag = 5;
  operation_number = 2;
  buf = 100;
  size = 8;
  remote_data_addr = 200;
}

abbrev pub alone : State (Unit {0})
alone = record {
  heap = λ p. ready;
  request_list = 1 ∷ [];
  to_free_list = [];
  crosstalk_counter = 0;
  world = tt;
  log = [];
}

pub quiet-NoError : NoError quiet
quiet-NoError = record {
  puts = λ ep payload addr rkey w. refl;
  gets = λ ep buf size addr rkey w. refl;
  fences = λ w. refl;
}

pub quiet-MapsMemory : MapsMemory quiet
quiet-MapsMemory = record { maps = λ address size w. refl; packs = λ memh w. refl }

-- A request that still searches for its connection.
abbrev pub searching : State (Unit {0})
searching = record alone {
  heap = λ p. record zeroed {
    type = send_request_type_search_for_rdma_connection;
    buf = 100;
    size = 8;
    tag = 3;
  };
}
