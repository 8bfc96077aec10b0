-- ===== src/Requests.antt =====
-- gen/mpif_functions.c: the routines that complete or start several requests. Their arrays of handles
-- are converted, given to MPI and converted back, and an index of C becomes one of Fortran. MPI's
-- routine is a function from what it is given to its error code and what it writes. A count or an
-- index is an `int`; an array of unknown size is the list of its elements.
pub mod Arrays
pub mod Index
mod Tests
use mpif.Prelude.{ℕ, zero, suc, List, [], ◌∷◌}
use mpif.Prelude.Int.{ℤ, pos, negsuc, ltb_ℤ}
use mpif.Prelude.{Bool, true, false, if◌then◌else◌}
use mpif.Machine.{Run, ok, fault, ◌>>=◌}
use mpif.Logical.{mpif_bool2logical}
use mpif.Sentinels.{Cells, mpif_c_status}

-- The rounds of `for (int i=0; i<count; ++i)`.
abbrev pub rounds : ℤ → ℕ
rounds (pos n) = n
rounds (negsuc n) = 0

-- `for (…) c_array[i] = convert(array[i]);`
unfoldable pub convert_array {ℓ κ} : {A : Type ℓ} {B : Type κ} → (A → B) → List A → ℕ → Run (List B)
convert_array convert array zero = ok []
convert_array convert [] (suc n) = fault
convert_array convert (a ∷ array) (suc n) = do
  rest ← convert_array convert array n
  ok (convert a ∷ rest)

-- `for (…) array[i] = convert(c_array[i]);`
unfoldable pub write_array {ℓ κ} :
    {A : Type ℓ} {B : Type κ} → (B → A) → List A → List B → ℕ → Run (List A)
write_array convert array c_array zero = ok array
write_array convert (a ∷ array) (b ∷ c_array) (suc n) = do
  rest ← write_array convert array c_array n
  ok (convert b ∷ rest)
write_array convert (a ∷ array) [] (suc n) = fault
write_array convert [] c_array (suc n) = fault

-- `if (*index >= 0) ++*index;`
abbrev pub to_fortran : ℤ → ℤ
to_fortran (pos n) = pos (suc n)
to_fortran (negsuc n) = negsuc n

-- `++*index`
abbrev pub succ : ℤ → ℤ
succ (pos n) = pos (suc n)
succ (negsuc zero) = pos 0
succ (negsuc (suc n)) = negsuc n

-- `for (…) ++array_of_indices[i];`
unfoldable pub increment : List ℤ → ℕ → Run (List ℤ)
increment indices zero = ok indices
increment [] (suc n) = fault
increment (i ∷ indices) (suc n) = do rest ← increment indices n; ok (succ i ∷ rest)

-- `*outcount < *incount ? *outcount : *incount`
abbrev pub q_count_of : ℤ → ℤ → ℤ
q_count_of outcount incount = if ltb_ℤ outcount incount then outcount else incount

-- What MPI writes: the handles, and what the routine gives besides.
pub record Waitall : Type 0 where
  pub ierror : ℕ
  pub requests : List ℕ

pub record Waitany : Type 0 where
  pub ierror : ℕ
  pub requests : List ℕ
  pub index : ℤ

pub record Waitsome : Type 0 where
  pub ierror : ℕ
  pub requests : List ℕ
  pub outcount : ℤ
  pub indices : List ℤ

pub record Testall : Type 0 where
  pub ierror : ℕ
  pub requests : List ℕ
  pub flag : ℕ

pub record Testany : Type 0 where
  pub ierror : ℕ
  pub requests : List ℕ
  pub index : ℤ
  pub flag : ℕ

module _ (cells : Cells) (request_fromint request_toint : ℕ → ℕ) where
  unfoldable pub mpi_waitall : (ℤ → List ℕ → ℕ → Waitall) → ℤ → List ℕ → ℕ → Run Waitall
  mpi_waitall waitall count array_of_requests array_of_statuses = do
    c_array_of_requests ← convert_array request_fromint array_of_requests (rounds count)
    let done = waitall count c_array_of_requests (mpif_c_status cells array_of_statuses)
    requests ← write_array request_toint array_of_requests done.requests (rounds count)
    ok record { ierror = done.ierror; requests = requests }

  unfoldable pub mpi_startall : (ℤ → List ℕ → Waitall) → ℤ → List ℕ → Run Waitall
  mpi_startall startall count array_of_requests = do
    c_array_of_requests ← convert_array request_fromint array_of_requests (rounds count)
    let done = startall count c_array_of_requests
    requests ← write_array request_toint array_of_requests done.requests (rounds count)
    ok record { ierror = done.ierror; requests = requests }

  -- The index of the caller is what `*index` holds before.
  unfoldable pub mpi_waitany : (ℤ → List ℕ → ℤ → ℕ → Waitany) → ℤ → List ℕ → ℤ → ℕ → Run Waitany
  mpi_waitany waitany count array_of_requests index status = do
    c_array_of_requests ← convert_array request_fromint array_of_requests (rounds count)
    let done = waitany count c_array_of_requests index (mpif_c_status cells status)
    requests ← write_array request_toint array_of_requests done.requests (rounds count)
    ok record { ierror = done.ierror; requests = requests; index = to_fortran done.index }

  unfoldable pub mpi_waitsome :
      (ℤ → List ℕ → ℤ → List ℤ → ℕ → Waitsome) → ℤ → List ℕ → ℤ → List ℤ → ℕ → Run Waitsome
  mpi_waitsome waitsome incount array_of_requests outcount array_of_indices array_of_statuses = do
    c_array_of_requests ← convert_array request_fromint array_of_requests (rounds incount)
    let done =
        waitsome incount c_array_of_requests outcount array_of_indices
          (mpif_c_status cells array_of_statuses)
    requests ← write_array request_toint array_of_requests done.requests (rounds incount)
    indices ← increment done.indices (rounds (q_count_of done.outcount incount))
    ok record {
      ierror = done.ierror;
      requests = requests;
      outcount = done.outcount;
      indices = indices;
    }

  unfoldable pub mpi_testsome :
      (ℤ → List ℕ → ℤ → List ℤ → ℕ → Waitsome) → ℤ → List ℕ → ℤ → List ℤ → ℕ → Run Waitsome
  mpi_testsome testsome incount array_of_requests outcount array_of_indices array_of_statuses = do
    c_array_of_requests ← convert_array request_fromint array_of_requests (rounds incount)
    let done =
        testsome incount c_array_of_requests outcount array_of_indices
          (mpif_c_status cells array_of_statuses)
    requests ← write_array request_toint array_of_requests done.requests (rounds incount)
    indices ← increment done.indices (rounds (q_count_of done.outcount incount))
    ok record {
      ierror = done.ierror;
      requests = requests;
      outcount = done.outcount;
      indices = indices;
    }

  -- The requests are not written back.
  unfoldable pub mpi_request_get_status_some :
      (ℤ → List ℕ → ℤ → List ℤ → ℕ → Waitsome) → ℤ → List ℕ → ℤ → List ℤ → ℕ → Run Waitsome
  mpi_request_get_status_some get_status_some incount array_of_requests outcount array_of_indices
        array_of_statuses =
      do
        c_array_of_requests ← convert_array request_fromint array_of_requests (rounds incount)
        let done =
            get_status_some incount c_array_of_requests outcount array_of_indices
              (mpif_c_status cells array_of_statuses)
        indices ← increment done.indices (rounds (q_count_of done.outcount incount))
        ok record {
          ierror = done.ierror;
          requests = array_of_requests;
          outcount = done.outcount;
          indices = indices;
        }

  module _ (mpif_logical_true mpif_logical_false : ℕ) where
    abbrev logical : ℕ → ℕ
    logical = mpif_bool2logical mpif_logical_true mpif_logical_false

    -- The flag is 0 before the call.
    unfoldable pub mpi_testall : (ℤ → List ℕ → ℕ → ℕ → Testall) → ℤ → List ℕ → ℕ → Run Testall
    mpi_testall testall count array_of_requests array_of_statuses = do
      c_array_of_requests ← convert_array request_fromint array_of_requests (rounds count)
      let done = testall count c_array_of_requests 0 (mpif_c_status cells array_of_statuses)
      requests ← write_array request_toint array_of_requests done.requests (rounds count)
      ok record { ierror = done.ierror; requests = requests; flag = logical done.flag }

    unfoldable pub mpi_testany :
        (ℤ → List ℕ → ℤ → ℕ → ℕ → Testany) → ℤ → List ℕ → ℤ → ℕ → Run Testany
    mpi_testany testany count array_of_requests index status = do
      c_array_of_requests ← convert_array request_fromint array_of_requests (rounds count)
      let done = testany count c_array_of_requests index 0 (mpif_c_status cells status)
      requests ← write_array request_toint array_of_requests done.requests (rounds count)
      ok record {
        ierror = done.ierror;
        requests = requests;
        index = to_fortran done.index;
        flag = logical done.flag;
      }

    -- The requests are not written back.
    unfoldable pub mpi_request_get_status_any :
        (ℤ → List ℕ → ℤ → ℕ → ℕ → Testany) → ℤ → List ℕ → ℤ → ℕ → Run Testany
    mpi_request_get_status_any get_status_any count array_of_requests index status = do
      c_array_of_requests ← convert_array request_fromint array_of_requests (rounds count)
      let done = get_status_any count c_array_of_requests index 0 (mpif_c_status cells status)
      ok record {
        ierror = done.ierror;
        requests = array_of_requests;
        index = to_fortran done.index;
        flag = logical done.flag;
      }

    unfoldable pub mpi_request_get_status_all :
        (ℤ → List ℕ → ℕ → ℕ → Testall) → ℤ → List ℕ → ℕ → Run Testall
    mpi_request_get_status_all get_status_all count array_of_requests array_of_statuses = do
      c_array_of_requests ← convert_array request_fromint array_of_requests (rounds count)
      let done = get_status_all count c_array_of_requests 0 (mpif_c_status cells array_of_statuses)
      ok record { ierror = done.ierror; requests = array_of_requests; flag = logical done.flag }
