-- ===== src/Tests.antt =====
-- Runs on concrete inputs: libraries that answer every call at once, one whose only message has come
-- in, runs of the protocol, and a small program for the pass.
mod Fixtures
mod Calls
mod Requests
mod Runs
mod Singles
mod Waits
mod Early
mod Active
mod Program
mod Pass
mod Loops
mod Names
mod Scopes
mod Pairs
