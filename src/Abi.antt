-- ===== src/Abi.antt =====
-- include/mpif_constants.h: the values of the constants that the C sources test or return.
use mpif.Prelude.{ℕ}

abbrev pub mpi_success : ℕ
mpi_success = 0

abbrev pub mpi_err_arg : ℕ
mpi_err_arg = 13

abbrev pub mpi_err_other : ℕ
mpi_err_other = 16

abbrev pub mpi_keyval_invalid : ℕ
mpi_keyval_invalid = 0

abbrev pub mpi_op_null : ℕ
mpi_op_null = 0x20

abbrev pub mpi_errhandler_null : ℕ
mpi_errhandler_null = 0x140

abbrev pub mpi_datatype_null : ℕ
mpi_datatype_null = 0x200

abbrev pub mpi_err_buffer : ℕ
mpi_err_buffer = 1

-- -4, as the bits of an `int`
abbrev pub mpi_root : ℕ
mpi_root = 0xfffffffc
