-- ===== src/Pass.antt =====
-- The compiler pass that replaces persistent operations by those of the library above, in
-- mpi_compiler_assistance_matching_pass/: what it reads of a program, its test of two calls for a
-- conflict, its search along the paths of a program, and the replacement.
pub mod Checked
pub mod Llvm
pub mod Analyses
pub mod Functions
pub mod Names
pub mod Metadata
pub mod Arguments
pub mod Conflicts
pub mod Loops
pub mod Search
pub mod Replacement
pub mod Scopes
pub mod Select
