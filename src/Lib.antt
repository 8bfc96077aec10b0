-- ===== src/Lib.antt =====
-- mpif: Fortran bindings for the MPI standard ABI. The library is a layer of C between Fortran and
-- an MPI library: each entry point converts its arguments, calls MPI, and converts what comes back.
-- Most of that is generated forwarding; what has logic of its own is modelled here.
--
-- The parts, by file:
--   Strings       src/mpif_strings.c: Fortran strings (a length, blanks) and C strings (terminated)
--   Logical       src/mpif_logical.c: logical values
--   Callbacks     src/mpif_callbacks.c: Fortran procedures that MPI calls
--     Predefined  mpif_predefined_callback: procedures that stand for sentinels of the ABI
--     Slots, Ops  mpif_op_reserve, mpif_op_cancel: 128 slots with a trampoline each, and
--                 mpi_op_create_ of gen/mpif_functions.c in Ops/Create
--     Errhandlers mpif_errhandler_reserve, mpif_errhandler_cancel: 64 slots with four trampolines
--                 each, and the routines that make a handler in Errhandlers/Create
--     Keyvals     mpif_register_attr_callback and the attribute trampolines (Keyvals/Call), and the
--                 mpi_*_create_keyval_ of gen/mpif_functions.c in Keyvals/Create
--     Grequest    mpif_grequest_reserve and its trampolines, mpi_grequest_start_ in Grequest/Start
--     Datarep     mpif_datarep_reserve and its trampolines, mpi_register_datarep_ in Datarep/Register
--     Threads     mpif_op_reserve and mpif_op_cancel again, with the accesses of threads interleaved;
--                 those of the pool of error handlers are the same
--   Cdesc         src/mpif_cdesc.c: mpif_cdesc_create_datatype, the datatype of an array section
--     Entry       gen/mpif_f08_cdesc.c: what the entry points do with a buffer's descriptor, and
--                 sixteen of them in Entry/Calls
--   Removed       src/mpif_removed.c: MPI-1 routines over those that replaced them
--   Sentinels     include/mpif_sentinels.h: constants that are recognised by their address
--   Attrs         src/mpif_attrs.c: mpif_attr_value; storing and reading attributes in Attrs/Access
--   Check         src/mpif_check.c: the checks of version, sentinels, library name and node layout
--     Together    the part of mpif_check_environment that all processes take part in
--     Setup       what a process checks by itself, and mpif_check_environment as a whole
--   of gen/mpif_functions.c, besides the routines named above:
--   Spawn         mpi_comm_spawn_, with its strings on a heap, and mpi_comm_spawn_multiple_ in
--                 Spawn/Multiple
--   Root          the block that finds out whether a process is the root
--   Requests      the routines with arrays of requests: mpi_waitall_, mpi_waitany_, mpi_waitsome_,
--                 mpi_startall_, the tests, and mpi_request_get_status_*
--   Info          routines that give a string: mpi_info_get_string_, mpi_info_get_ and their like
--   Ports         mpi_comm_accept_, mpi_comm_connect_, with the name of a port
--   Types         mpi_type_create_struct_, mpi_type_get_contents_
--   Topology      mpi_cart_create_, mpi_cart_map_, mpi_cart_get_, mpi_cart_sub_
--   Alltoallw     mpi_gather_, mpi_scatter_, and mpi_alltoallw_, mpi_ialltoallw_ and
--                 mpi_neighbor_alltoallw_, with a datatype for each process or neighbour
--   Prelude, Machine, Heap, Abi, Fixtures: shared names, the C language and its library, constants,
--                 and test data
--
-- How they interact: a wrapper of gen/mpif_functions.c asks Predefined whether a procedure stands
-- for a sentinel, reserves a slot, a table entry or a box, calls MPI, and takes the reservation
-- back if MPI fails. Later MPI calls a trampoline, which finds the Fortran procedure by its slot,
-- by the keyval or by the box in `extra_state`.
--
-- Conventions. A function of C is a function to Run, where undefined behaviour is `fault` and an
-- end of the process is `aborted`, or a plain function if it can do neither. Global state (slots,
-- table, heap) is an argument and part of the result. A 32-bit or 64-bit integer that is converted
-- is its bit pattern; a sum of `int` that may overflow is a fault then (Info.int_suc); loop
-- counters and sizes are natural numbers, and so is an address. MPI's routines, its handle
-- conversions and the Fortran procedures are parameters: what they return is arbitrary, and where a
-- theorem needs more, that is a named hypothesis (Cdesc/Walk.Documented,
-- Check/Together/World.Answers).
--
-- Bounds and fuel. The two counts of Strings walk an array of unknown size, on fuel of one more
-- than its bytes. The walk of Check over the nodes has one round for each process. All other loops
-- are recursions on their data. Products in Cdesc are those of an object in memory and are not cut
-- to 64 bits; counts are not negative, and extents are known.
--
-- A count that comes from a caller or from MPI is an integer that may be negative; the loops over
-- it have as many rounds as it says, and none if it is negative (Requests.rounds). A call of
-- mpif_op_reserve takes at most 129 steps, whatever other threads do.
--
-- Not modelled. But for Callbacks/Threads, the calls that change a pool or the table are taken
-- one after another. Messages are left out, with the node layout that
-- mpif_check_environment prints. The wrappers that convert handles and nothing else, the Fortran
-- sources and the generator are outside; a routine of the profiling interface (pmpi_*) is its twin
-- with another routine of MPI.
pub mod Prelude
pub mod Machine
pub mod Strings
pub mod Root
pub mod Fixtures
pub mod Spawn
pub mod Requests
pub mod Info
pub mod Ports
pub mod Types
pub mod Topology
pub mod Alltoallw
pub mod Abi
pub mod Logical
pub mod Heap
pub mod Callbacks
pub mod Cdesc
pub mod Removed
pub mod Attrs
pub mod Sentinels
pub mod Check
