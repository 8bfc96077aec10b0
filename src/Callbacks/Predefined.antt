-- ===== src/Callbacks/Predefined.antt =====
-- src/mpif_callbacks.c, the predefined callbacks: Fortran procedures that stand for a sentinel of
-- the ABI. A procedure is an address: of one of the library's own symbols, which the linker keeps
-- apart, of a user's procedure, or NULL. The sentinels' values are in mpi.h and do not matter.
use mathlib.Core.Logic.{ite}
use mpif.Prelude.{ℕ, ◌≡◌, refl, Option, none, some, List, [], ◌∷◌}
use native.Mathlib.Decide.{ℕ_discrete}

pub data Symbol : Type 0 where
  mpi_null_copy_fn mpi_dup_fn mpi_null_delete_fn : Symbol
  mpi_comm_null_copy_fn mpi_comm_dup_fn mpi_comm_null_delete_fn : Symbol
  mpi_type_null_copy_fn mpi_type_dup_fn mpi_type_null_delete_fn : Symbol
  mpi_win_null_copy_fn mpi_win_dup_fn mpi_win_null_delete_fn : Symbol
  mpi_conversion_fn_null mpi_conversion_fn_null_c : Symbol
  mpif_f08_comm_null_copy_fn mpif_f08_comm_dup_fn mpif_f08_comm_null_delete_fn : Symbol
  mpif_f08_type_null_copy_fn mpif_f08_type_dup_fn mpif_f08_type_null_delete_fn : Symbol
  mpif_f08_win_null_copy_fn mpif_f08_win_dup_fn mpif_f08_win_null_delete_fn : Symbol
  mpif_f08_conversion_fn_null mpif_f08_conversion_fn_null_c : Symbol

pub data Procedure : Type 0 where
  null : Procedure
  symbol : Symbol → Procedure
  user : ℕ → Procedure

pub Procedure-discrete : Discrete Procedure
Procedure-discrete = hlevel ℕ_discrete

pub data Sentinel : Type 0 where
  comm_null_copy_fn comm_dup_fn comm_null_delete_fn : Sentinel
  type_null_copy_fn type_dup_fn type_null_delete_fn : Sentinel
  win_null_copy_fn win_dup_fn win_null_delete_fn : Sentinel
  conversion_fn_null conversion_fn_null_c : Sentinel

predefined_callbacks : List (Procedure × Sentinel)
predefined_callbacks =
    (symbol mpi_null_copy_fn, comm_null_copy_fn)
    ∷ (symbol mpi_dup_fn, comm_dup_fn)
    ∷ (symbol mpi_null_delete_fn, comm_null_delete_fn)
    ∷ (symbol mpi_comm_null_copy_fn, comm_null_copy_fn)
    ∷ (symbol mpi_comm_dup_fn, comm_dup_fn)
    ∷ (symbol mpi_comm_null_delete_fn, comm_null_delete_fn)
    ∷ (symbol mpi_type_null_copy_fn, type_null_copy_fn)
    ∷ (symbol mpi_type_dup_fn, type_dup_fn)
    ∷ (symbol mpi_type_null_delete_fn, type_null_delete_fn)
    ∷ (symbol mpi_win_null_copy_fn, win_null_copy_fn)
    ∷ (symbol mpi_win_dup_fn, win_dup_fn)
    ∷ (symbol mpi_win_null_delete_fn, win_null_delete_fn)
    ∷ (symbol mpi_conversion_fn_null, conversion_fn_null)
    ∷ (symbol mpi_conversion_fn_null_c, conversion_fn_null_c)
    ∷ (symbol mpif_f08_comm_null_copy_fn, comm_null_copy_fn)
    ∷ (symbol mpif_f08_comm_dup_fn, comm_dup_fn)
    ∷ (symbol mpif_f08_comm_null_delete_fn, comm_null_delete_fn)
    ∷ (symbol mpif_f08_type_null_copy_fn, type_null_copy_fn)
    ∷ (symbol mpif_f08_type_dup_fn, type_dup_fn)
    ∷ (symbol mpif_f08_type_null_delete_fn, type_null_delete_fn)
    ∷ (symbol mpif_f08_win_null_copy_fn, win_null_copy_fn)
    ∷ (symbol mpif_f08_win_dup_fn, win_dup_fn)
    ∷ (symbol mpif_f08_win_null_delete_fn, win_null_delete_fn)
    ∷ (symbol mpif_f08_conversion_fn_null, conversion_fn_null)
    ∷ (symbol mpif_f08_conversion_fn_null_c, conversion_fn_null_c)
    ∷ []

-- The loop over the table.
scan : Procedure → List (Procedure × Sentinel) → Option Sentinel
unfolding Procedure-discrete ℕ_discrete
scan callback [] = none
scan callback ((fortran, abi) ∷ rest) =
    ite (Procedure-discrete fortran callback) (some abi) (scan callback rest)

unfoldable pub mpif_predefined_callback : Procedure → Option Sentinel
unfolding scan predefined_callbacks
mpif_predefined_callback callback = scan callback predefined_callbacks

-- What each procedure stands for, by its name: the MPI-1 names stand for those of communicators,
-- and mpi_f08's for the same sentinels as those of the mpi module.
pub meaning : Symbol → Sentinel
meaning mpi_null_copy_fn = comm_null_copy_fn
meaning mpi_comm_null_copy_fn = comm_null_copy_fn
meaning mpif_f08_comm_null_copy_fn = comm_null_copy_fn
meaning mpi_dup_fn = comm_dup_fn
meaning mpi_comm_dup_fn = comm_dup_fn
meaning mpif_f08_comm_dup_fn = comm_dup_fn
meaning mpi_null_delete_fn = comm_null_delete_fn
meaning mpi_comm_null_delete_fn = comm_null_delete_fn
meaning mpif_f08_comm_null_delete_fn = comm_null_delete_fn
meaning mpi_type_null_copy_fn = type_null_copy_fn
meaning mpif_f08_type_null_copy_fn = type_null_copy_fn
meaning mpi_type_dup_fn = type_dup_fn
meaning mpif_f08_type_dup_fn = type_dup_fn
meaning mpi_type_null_delete_fn = type_null_delete_fn
meaning mpif_f08_type_null_delete_fn = type_null_delete_fn
meaning mpi_win_null_copy_fn = win_null_copy_fn
meaning mpif_f08_win_null_copy_fn = win_null_copy_fn
meaning mpi_win_dup_fn = win_dup_fn
meaning mpif_f08_win_dup_fn = win_dup_fn
meaning mpi_win_null_delete_fn = win_null_delete_fn
meaning mpif_f08_win_null_delete_fn = win_null_delete_fn
meaning mpi_conversion_fn_null = conversion_fn_null
meaning mpif_f08_conversion_fn_null = conversion_fn_null
meaning mpi_conversion_fn_null_c = conversion_fn_null_c
meaning mpif_f08_conversion_fn_null_c = conversion_fn_null_c

scan-meaning : (s : Symbol) → scan (symbol s) predefined_callbacks ≡ some (meaning s)
unfolding scan predefined_callbacks meaning
scan-meaning mpi_null_copy_fn = refl
scan-meaning _ = refl

abbrev pub sentinel_of : Procedure → Option Sentinel
sentinel_of null = none
sentinel_of (user n) = none
sentinel_of (symbol s) = some (meaning s)

-- The search finds every predefined procedure, with the sentinel that its name stands for, and
-- takes no user's procedure for one.
pub predefined_callback-sentinel_of :
    (callback : Procedure) → mpif_predefined_callback callback ≡ sentinel_of callback
unfolding mpif_predefined_callback
predefined_callback-sentinel_of null = refl
predefined_callback-sentinel_of (user n) = refl
predefined_callback-sentinel_of (symbol s) = scan-meaning s
