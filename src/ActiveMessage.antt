-- ===== src/ActiveMessage.antt =====
-- The variant of openmpi-patch/one-sided-persistent.c that sends by active messages: the whole file
-- as it is compiled by default (USE_RENDEZVOUS), and its queue of messages under USE_EAGER.
pub mod Request
pub mod Library
pub mod Machine
pub mod Transfer
pub mod Connection
pub mod Operation
pub mod Lifecycle
pub mod EarlyReturn
pub mod Messages
pub mod Nested
pub mod Settle
pub mod Pair
pub mod Ids
pub mod Eager
pub mod Queue
pub mod Order
pub mod Loss
