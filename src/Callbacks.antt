-- ===== src/Callbacks.antt =====
-- src/mpif_callbacks.c: Fortran procedures as MPI callbacks.
pub mod Predefined
pub mod Slots
pub mod Ops
pub mod Keyvals
pub mod Grequest
pub mod Datarep
pub mod Errhandlers
pub mod Threads
mod Tests
