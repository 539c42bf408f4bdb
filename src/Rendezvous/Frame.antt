-- ===== src/Rendezvous/Frame.antt =====
-- What no progress of the library and of other requests may change: the type, the operation number,
-- the buffer and the partner of any request, its registered memory, and the lists of requests.
pub mod Rules
pub mod Progress
