-- ===== src/Callbacks/Keyvals/Tests.antt =====
-- The attribute callbacks at small inputs: the empty table, and two procedures of the user.
use mpif.Prelude.{ℕ, ◌+◌, ◌≡◌, ◌≢◌, refl, none, some, arith}
use mpif.Abi.{mpi_success, mpi_keyval_invalid}
use mpif.Logical
use mpif.Callbacks.Predefined.{Procedure, null, user, mpif_predefined_callback}
use mpif.Callbacks.Keyvals
use mpif.Callbacks.Keyvals.{mpif_register_attr_callback}
use mpif.Callbacks.Keyvals.Table.{register-Outcome}
use mpif.Callbacks.Keyvals.Call
use mpif.Callbacks.Keyvals.Call.{World, Given}
use mpif.Callbacks.Keyvals.Create
use mpif.Callbacks.Keyvals.Create.{
  Function, Object, mpi_create_keyval, create_keyval-Stored, created_keyval_calls_its_procedures,
}

abbrev sum_fn : Procedure
sum_fn = user 7

abbrev max_fn : Procedure
max_fn = user 8

sum_fn_ne_null : sum_fn ≢ null
sum_fn_ne_null e = cc

max_fn_ne_null : max_fn ≢ null
max_fn_ne_null e = cc

sum_fn-IsUser : mpif_predefined_callback sum_fn ≡ none
unfolding mpif_predefined_callback
sum_fn-IsUser = refl

max_fn-IsUser : mpif_predefined_callback max_fn ≡ none
unfolding mpif_predefined_callback
max_fn-IsUser = refl

register-Outcome_example :
    Keyvals.Table.Outcome Keyvals.initial 700 Keyvals.Kind.type_copy sum_fn
      (mpif_register_attr_callback Keyvals.initial 700 Keyvals.Kind.type_copy sum_fn)
register-Outcome_example = register-Outcome Keyvals.initial 700 Keyvals.Kind.type_copy sum_fn

-- MPI makes the keyval 700.
abbrev create : Object → Function → Function → ℕ × ℕ
create object copy delete = (0, 700)

create_valid : (f g : Function) → (create Object.type f g).1 ≢ mpi_keyval_invalid
create_valid f g = ground arith

created : (mpi_create_keyval create Keyvals.initial Object.type sum_fn max_fn).ierror ≡ mpi_success
unfolding mpi_create_keyval mpif_register_attr_callback mpif_predefined_callback
    Keyvals.find_attr_entry
created = refl

created_keyval : 700 ≡ (mpi_create_keyval create Keyvals.initial Object.type sum_fn max_fn).keyval
unfolding mpi_create_keyval mpif_register_attr_callback mpif_predefined_callback
    Keyvals.find_attr_entry
created_keyval = refl

create_keyval-Stored_example :
    Keyvals.Create.Stored Keyvals.initial sum_fn max_fn
      (mpi_create_keyval create Keyvals.initial Object.type sum_fn max_fn)
create_keyval-Stored_example =
    create_keyval-Stored create Keyvals.initial Object.type sum_fn max_fn sum_fn-IsUser
      max_fn-IsUser create_valid created

-- Copying answers the value and one more, and deleting the code 3.
abbrev world : World
world = record {
  comm_toint = λ h. h;
  type_toint = λ h. h + 1;
  win_toint = λ h. h;
  run_copy = λ f a. record a { attribute_val_out = a.attribute_val_in + 1; flag = 1 };
  run_delete = λ f a. record a { ierror = 3 };
  logical_true = 1;
  logical_false = 0;
}

abbrev given : Given
given = record { handle = 4; keyval = 700; extra_state = 5; value = 6 }

created_keyval_calls_its_procedures_example :
    Keyvals.Call.invoke world
      (mpi_create_keyval create Keyvals.initial Object.type sum_fn max_fn).entries
      Keyvals.Call.Trampoline.type_copy_attr
      given
    ≡ Keyvals.Call.Answer.copied (record { ierror = 0; written = some (7, 1) })
unfolding Logical.mpif_logical2bool
created_keyval_calls_its_procedures_example =
    created_keyval_calls_its_procedures create Keyvals.initial Object.type sum_fn max_fn world
      Keyvals.Call.Trampoline.type_copy_attr given sum_fn-IsUser max_fn-IsUser sum_fn_ne_null
      max_fn_ne_null create_valid created created_keyval
