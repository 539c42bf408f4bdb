-- ===== src/Protocol.antt =====
-- The two-sided rendezvous protocol of openmpi-patch/one-sided-persistent_two_sided_rendezvous.c
-- as a system of two processes: one sender, one receiver, connected, and the RDMA operations that
-- each has issued and that have not been carried out yet.
pub mod System
pub mod Invariant
pub mod Safety
pub mod Finish
pub mod Refines
pub mod Nested
pub mod Single
