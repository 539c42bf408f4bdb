-- ===== src/Rendezvous.antt =====
-- openmpi-patch/one-sided-persistent_two_sided_rendezvous.c: persistent operations over RDMA, with
-- the two-sided rendezvous protocol.
pub mod Request
pub mod Library
pub mod Machine
pub mod RequestList
pub mod Transfer
pub mod Handshake
pub mod Progress
pub mod Wait
pub mod Start
pub mod Lifecycle
pub mod Api
pub mod Frame
