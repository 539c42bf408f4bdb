-- ===== src/Tests/Program.antt =====
-- A small program for the pass: the creation of a send behind which one way frees the request and
-- the other calls an unknown function, and the creation of a receive.
use mpi_comp_match.Base.{ℕ, true, false, List, [], ◌∷◌, ◌==◌, pos, if◌then◌else◌, not, ltb}
use mpi_comp_match.Pass.Llvm.{Llvm}
use mpi_comp_match.Pass.Functions.{MpiFunctions}
use mpi_comp_match.Pass.Conflicts.{Wildcards}
use mpi_comp_match.Pass.Search.{contains}
use mpi_comp_match.Pass.Scopes.{Indexing}

abbrev pub at : List (ℕ × ℕ) → ℕ → ℕ
at [] key = 0
at ((k, v) ∷ rest) key = if k == key then v else at rest key

abbrev pub lists_at : List (ℕ × List ℕ) → ℕ → List ℕ
lists_at [] key = []
lists_at ((k, v) ∷ rest) key = if k == key then v else lists_at rest key

-- The functions have the numbers below 20, those of MPI the ones below 8.
abbrev pub functions : MpiFunctions
functions = record {
  mpi_init = 0;
  mpi_init_thread = 0;
  mpi_finalize = 1;
  mpi_send = 4;
  mpi_bsend = 0;
  mpi_ssend = 0;
  mpi_rsend = 0;
  mpi_isend = 6;
  mpi_ibsend = 0;
  mpi_issend = 0;
  mpi_irsend = 0;
  mpi_sendrecv = 0;
  mpi_recv = 0;
  mpi_irecv = 0;
  mpi_test = 0;
  mpi_wait = 7;
  mpi_waitall = 14;
  mpi_buffer_detach = 0;
  mpi_barrier = 0;
  mpi_allreduce = 0;
  mpi_ibarrier = 0;
  mpi_iallreduce = 0;
  mpi_start = 0;
  mpi_send_init = 2;
  mpi_recv_init = 5;
  mpi_request_free = 3;
  optimized = record {
    init = 16;
    finalize = 11;
    mpi_wait = 17;
    mpi_start = 0;
    mpi_send_init = 12;
    mpi_recv_init = 15;
    mpi_request_free = 13;
  };
}

abbrev pub wildcards : Wildcards
wildcards = record { any_source = 300; any_tag = 301 }

abbrev called : List (ℕ × ℕ)
called =
    (20, 2) ∷ (24, 9) ∷ (26, 5) ∷ (30, 3) ∷ (36, 3) ∷ (40, 8) ∷ (50, 6) ∷ (51, 6) ∷ (52, 10) ∷ []

-- 20 creates a send, 21 branches to 30 and 40; 26 creates a receive, which 36 frees. 24 calls the
-- function 9, 52 calls the function 10, and 50 and 51 are sends.
abbrev pub program : Llvm
program = record {
  functions = 8 ∷ 9 ∷ 10 ∷ [];
  users =
      lists_at
        ((2, 20 ∷ []) ∷ (5, 26 ∷ []) ∷ (9, 24 ∷ []) ∷ (90, 20 ∷ 30 ∷ []) ∷ (91, 26 ∷ 36 ∷ []) ∷ []);
  is_constant = λ v. ltb 79 v;
  is_no_return = λ f. false;
  is_intrinsic = λ f. false;
  is_lib_func = λ f. false;
  is_declaration = λ f. f == 8;
  name_contains_mpi = λ f. ltb f 8;
  instructions = lists_at ((9, 52 ∷ []) ∷ (10, 50 ∷ []) ∷ []);
  is_call = λ i. not (at called i == 0);
  is_invoke = λ i. false;
  is_branch = λ i. i == 21;
  is_return = λ i. i == 10;
  is_unreachable = λ i. false;
  is_alloca = λ v. contains v (90 ∷ 91 ∷ []);
  is_bit_cast = λ v. false;
  is_terminator = λ i. contains i (10 ∷ 21 ∷ []);
  get_parent = at ((20, 100) ∷ (21, 100) ∷ (30, 101) ∷ (40, 102) ∷ []);
  get_function = λ i. 9;
  get_next_node = at ((20, 21) ∷ (26, 36) ∷ []);
  get_called_function = at called;
  get_num_arg_operands = λ i. if contains i (30 ∷ 36 ∷ []) then 1 else 7;
  get_arg_operand = λ i k.
      if contains i (50 ∷ 51 ∷ [])
      then at ((3, 83) ∷ (4, 84) ∷ (5, 85) ∷ []) k
      else (if contains i (20 ∷ 30 ∷ []) then 90 else 91);
  get_normal_dest = λ i. 0;
  successors = lists_at ((21, 101 ∷ 102 ∷ []) ∷ []);
  is_conditional = λ i. true;
  get_condition = λ i. 70;
  predecessors = λ b. [];
  get_terminator = λ b. 0;
  get_first_non_phi = at ((101, 30) ∷ (102, 40) ∷ []);
  same_type = λ a b. true;
  is_instruction = λ v. false;
  is_known_unequal = λ a b. false;
  same_function_type = λ a b. true;
}

-- The program with other instructions behind the creation of the send.
abbrev pub followed_by : ℕ → Llvm
followed_by i = record program { get_next_node = at ((20, i) ∷ []) }

-- The program takes pointers to elements of no array.
abbrev pub indexing : Indexing
indexing = record {
  is_get_element_ptr = λ v. false;
  is_in_bounds = λ v. false;
  get_pointer_operand = λ v. 0;
  has_all_constant_indices = λ v. false;
  indices = λ v. [];
  is_constant_int = λ v. false;
  get_sext_value = λ v. pos 0;
  zero_like = λ v. 0;
}
