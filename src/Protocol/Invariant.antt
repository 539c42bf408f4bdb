-- ===== src/Protocol/Invariant.antt =====
-- The invariant of the protocol, whose children show that every step of the system keeps it.
pub mod Defs
pub mod Wires
pub mod Sender
pub mod Receiver
pub mod Network
