-- ===== src/Sentinels.antt =====
-- include/mpif_sentinels.h: sentinels are recognised by the address that the caller passes. The
-- addresses of the library's own cells are the record `Cells`.
pub mod Translate
mod Tests
use mpif.Prelude.{ℕ, Bool, ◌||◌, ◌==◌, if◌then◌else◌}

pub record Cells : Type 0 where
  pub bottom : ℕ
  pub in_place : ℕ
  pub buffer_automatic : ℕ
  pub argv_null : ℕ
  pub argvs_null : ℕ
  pub errcodes_ignore : ℕ
  pub unweighted : ℕ
  pub weights_empty : ℕ
  pub status_ignore : ℕ
  pub statuses_ignore : ℕ
  pub f08_status_ignore : ℕ
  pub f08_statuses_ignore : ℕ

-- The addresses that the constants of the ABI's mpi.h stand for.
abbrev pub mpi_bottom : ℕ
mpi_bottom = 0

abbrev pub mpi_in_place : ℕ
mpi_in_place = 1

abbrev pub mpi_buffer_automatic : ℕ
mpi_buffer_automatic = 2

abbrev pub mpi_unweighted : ℕ
mpi_unweighted = 10

abbrev pub mpi_weights_empty : ℕ
mpi_weights_empty = 11

-- MPI_STATUS_IGNORE, MPI_STATUSES_IGNORE and MPI_ERRCODES_IGNORE
abbrev pub null_address : ℕ
null_address = 0

module _ (cells : Cells) where
  unfoldable pub mpif_c_cbuffer : ℕ → ℕ
  mpif_c_cbuffer p =
      if p == cells.bottom
      then mpi_bottom
      else (if p == cells.in_place
          then mpi_in_place
          else (if p == cells.buffer_automatic then mpi_buffer_automatic else p))

  unfoldable pub mpif_c_buffer : ℕ → ℕ
  mpif_c_buffer p =
      if p == cells.bottom
      then mpi_bottom
      else (if p == cells.in_place
          then mpi_in_place
          else (if p == cells.buffer_automatic then mpi_buffer_automatic else p))

  unfoldable pub mpif_f_buffer_addr : ℕ → ℕ
  mpif_f_buffer_addr p = if p == mpi_buffer_automatic then cells.buffer_automatic else p

  unfoldable pub mpif_c_status : ℕ → ℕ
  mpif_c_status p =
      if p == cells.status_ignore || p == cells.f08_status_ignore
      then null_address
      else (if p == cells.statuses_ignore || p == cells.f08_statuses_ignore
          then null_address
          else p)

  unfoldable pub mpif_c_weights : ℕ → ℕ
  mpif_c_weights p =
      if p == cells.unweighted
      then mpi_unweighted
      else (if p == cells.weights_empty then mpi_weights_empty else p)

  unfoldable pub mpif_c_errcodes : ℕ → ℕ
  mpif_c_errcodes p = if p == cells.errcodes_ignore then null_address else p

  unfoldable pub mpif_is_argv_null : ℕ → Bool
  mpif_is_argv_null p = p == cells.argv_null

  unfoldable pub mpif_is_argvs_null : ℕ → Bool
  mpif_is_argvs_null p = p == cells.argvs_null
