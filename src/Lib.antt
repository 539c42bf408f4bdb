-- ===== src/Lib.antt =====
-- The persistent point-to-point operations of openmpi-patch in both variants, over RDMA
-- (openmpi-patch/one-sided-persistent_two_sided_rendezvous.c) and over active messages
-- (openmpi-patch/one-sided-persistent.c), and the compiler pass that puts them in the place of MPI's
-- own (mpi_compiler_assistance_matching_pass/).
--
-- The program. MPIOPT_Send_init and MPIOPT_Recv_init create a request; MPIOPT_Start and MPIOPT_Wait
-- start and complete an operation of it, any number of times; MPIOPT_Request_free gives it up, and
-- MPIOPT_INIT and MPIOPT_FINALIZE frame all of it. In its first operation a request sends its
-- handshake and the data goes by ordinary MPI. Over RDMA the handshake has the addresses of the
-- buffer and the flag, with their remote keys; where it has come in, every later operation puts or
-- gets the data, steered by the two flags: in operation n, 2 n + 1 says that the other side has
-- started, and 2 n + 2 that the operation has finished. Over active messages the handshake has the
-- AM_ID under which the receiver has registered its handler. Otherwise all later operations fall back
-- to ordinary MPI. A wait progresses the other requests of the process. The pass looks for the calls
-- of MPI_Send_init and MPI_Recv_init whose messages no other call can match, and replaces them, with
-- the calls that use their requests, by the functions above.
--
-- The files. Base holds shared names, Boolean tests, lists, integers and texts. Machine has actions
-- over a state, which return or stop at a fault: a failing assertion, a signed overflow or a read past a buffer, or fuel
-- that has run out. Machine/Run has the equations by which a proof runs one, Machine/Preserves the
-- rules by which it keeps a relation between states. Rendezvous models the variant over RDMA:
--   Request: struct mpiopt_request, its types and constants.
--   Library: the calls of UCX, Open MPI and the allocator. These are not in the repository: a call
--     is a value, and the library that answers it, with the writes of other processes to the flags
--     that land during it, is a parameter of every function. What a theorem assumes of the library is
--     a record among its hypotheses: NoError, MapsMemory, OneMessage, Completes.
--   Machine: the state of a process (the requests by address, request_list_head, to_free_list_head,
--     crosstalk_counter, the library's state, and a log of calls, latest first) and actions on it.
--   RequestList: add_request_to_list, remove_request_from_list. The dummy heads are left out.
--   Transfer: b_send, b_recv, progress_recv_request, wait_for_completion_blocking.
--   Handshake: send_rdma_info, receive_rdma_info; Handshake/Message: the bytes exchanged.
--   Progress: progress_request_waiting_for_rdma, progress_request, progress_other_requests.
--   Wait: e_send, e_recv, the waits of a request that searches, MPIOPT_Wait.
--   Start: MPIOPT_Start. Lifecycle: init_request, MPIOPT_Send_init, MPIOPT_Recv_init,
--     MPIOPT_Request_free, MPIOPT_INIT, MPIOPT_FINALIZE. Api: the other functions of the interface.
--   Frame: what progress of other requests may not change.
-- Protocol models a connected pair across both processes: System has its states and its steps, one
-- for each way in which b_send, e_send, b_recv, e_recv and progress_recv_request act, and for each
-- RDMA operation that is carried out, a put of the flag with the value at the call; Invariant, Safety
-- and Finish reason about them, and Refines relates the steps to the functions of Rendezvous. Single
-- has the pair whose receiving process has no other request, so that no other wait progresses it, and
-- in which a put may read flag_buffer late. Nested adds the step that System leaves out, the fetch by a
-- nested progress while e_recv is in its own loops.
-- ActiveMessage models the other variant, as it is compiled by default (USE_RENDEZVOUS):
--   Request, Library, Machine: as above, but a call of the library runs the handlers of the messages
--     that come in during it. Machine has incoming_am_msg_handler.
--   Transfer: b_send, e_send, b_recv, e_recv, wait_for_completion_blocking, and the progress of the
--     other requests. Connection: send_rdma_info and the first start and wait. Operation: MPIOPT_Start,
--     MPIOPT_Wait, MPIOPT_Test. Lifecycle: creation, release, initialisation, finalisation.
--   Ids, Messages, EarlyReturn, Nested and Settle reason about them: Ids/Reach has the operations of
--     the interface as steps.
--   Pair models a sender and a receiver across both processes, from the creation of their requests on;
--     Pair/Invariant, Pair/Agreement and Pair/Split reason about it.
--   Eager has the receive side as it is compiled for eager messages (USE_EAGER), a failing assertion
--     being none; Queue interleaves it with messages that come in; Order and Loss reason about it.
-- Pass models the pass. The program under compilation and LLVM's analyses of it are a parameter,
-- Pass/Llvm, in which instructions, values, blocks and functions are numbers. What a theorem assumes
-- of them is a record: Execution of the values and the scalar evolutions, Region of the blocks, and
-- HasZeros of a constant.
--   Checked: computations that may fail an assertion. Analyses: analysis_results.cpp. Functions and
--     Names: mpi_functions.cpp; Names has the lookup by name. Metadata: function_coverage.cpp. Of
--     conflict_detection.cpp, Arguments, Conflicts and Search: the getters, are_calls_conflicting and
--     check_call_for_conflict; Scopes: get_scope_endings and what it calls; Loops: the test of two
--     calls for the same iteration. Replacement: replacement.cpp. Select: check_mpi_send_conflicts,
--     check_mpi_recv_conflicts and runOnModule. Their child modules reason about them.
-- Tests has concrete runs.
--
-- Bounds and fuel. An int below its limit is a natural number, and an overflow is a fault. A pointer,
-- handle or key is a number, 0 being NULL. Loops that wait for the library or for another process, and
-- the recursion of progress_other_requests through receive_rdma_info, take fuel; Wait/Send bounds the
-- fuel that a wait needs by a measure on the library. In the protocol an operation is carried out
-- at one moment, in any order but across a fence; that is what UCX documents of ucp_worker_fence, and
-- a put of the flag carries the value that flag_buffer has at the call, but in Protocol/Single, where
-- it may read flag_buffer at any moment until it is carried out. UCX takes the id of a handler as an
-- unsigned int, and AM_ID is narrowed to 2 ^ 32 values. The search of the pass takes
-- fuel for its rounds; Pass/Search/Terminates says how much is enough in a function that is not
-- called. The recursion over the blocks of a loop takes fuel for its depth; Pass/Loops/Ends says that
-- the number of blocks is enough.
--
-- Not modelled. The statistics and the buffer check behind macros that are off, the locks, and
-- printing. The allocation of list elements and of temporary buffers. Return values, most of which
-- the source leaves out. In the protocol, an operation of ordinary MPI, and, but for Protocol/Nested, a
-- fetch of a request by a nested progress while e_recv is in its own loops. In the steps of
-- ActiveMessage/Queue, nested progress. Of the pass, the lists of calls in struct mpi_functions, which
-- stay empty. The examples, the benchmarks, which are those of another project, and the plots.
pub mod Base
pub mod Machine
pub mod Rendezvous
pub mod Protocol
pub mod ActiveMessage
pub mod Pass
pub mod Tests
