-- ===== src/Requests/Tests.antt =====
-- Three requests of which two complete.
use mpif.Fixtures.{cells}
use mpif.Prelude.{ℕ, ◌+◌, ◌-◌, ◌≡◌, refl, List, [], ◌∷◌, arith}
use mpif.Prelude.Int.{ℤ, pos, negsuc}
use mpif.Machine.{Returns, ok, fault}
use mpif.Requests.{convert_array, write_array, Waitall, Waitany, Waitsome, mpi_waitall, mpi_waitany}
use mpif.Requests.Index.{Names, waitany-Names}

abbrev fromint : ℕ → ℕ
fromint r = r + 1000

abbrev toint : ℕ → ℕ
toint h = h - 1000

-- Three requests, and what follows them in memory.
abbrev requests : List ℕ
requests = 7 ∷ 8 ∷ 9 ∷ 99 ∷ []

-- The second request completes and becomes 1000.
abbrev waitany : ℤ → List ℕ → ℤ → ℕ → Waitany
waitany count handles index status = record {
  ierror = 0;
  requests = 1007 ∷ 1000 ∷ 1009 ∷ [];
  index = pos 1;
}

-- The first and the last one.
abbrev waitsome : ℤ → List ℕ → ℤ → List ℤ → ℕ → Waitsome
waitsome count handles outcount indices statuses = record {
  ierror = 0;
  requests = 1000 ∷ 1008 ∷ 1000 ∷ [];
  outcount = pos 2;
  indices = pos 0 ∷ pos 2 ∷ pos 55 ∷ [];
}

abbrev waitall : ℤ → List ℕ → ℕ → Waitall
waitall count handles statuses = record { ierror = 0; requests = handles }

waitany_test :
    mpi_waitany cells fromint toint waitany (pos 3) requests (pos 0) 108
    ≡ ok record { ierror = 0; requests = 7 ∷ 0 ∷ 9 ∷ 99 ∷ []; index = pos 2 }
unfolding mpi_waitany convert_array write_array
waitany_test = refl

-- A negative count converts nothing.
waitall_negative :
    mpi_waitall cells fromint toint waitall (negsuc 0) requests 109
    ≡ ok record { ierror = 0; requests = requests }
unfolding mpi_waitall convert_array write_array
waitall_negative = refl

-- A count beyond the array reads behind it.
waitall_beyond : mpi_waitall cells fromint toint waitall (pos 5) requests 109 ≡ fault
unfolding mpi_waitall convert_array
waitall_beyond = refl

waitany-Names_example :
    Returns
      (λ r.
        (r.ierror ≡ 0)
        × (r.requests ≡ 7 ∷ 0 ∷ 9 ∷ 99 ∷ [])
        × Names cells fromint toint (1007 ∷ 1000 ∷ 1009 ∷ []) (pos 1) r.requests r.index)
      (mpi_waitany cells fromint toint waitany (pos 3) requests (pos 0) 108)
waitany-Names_example =
    waitany-Names cells fromint toint waitany (pos 3) requests (pos 0) 108 (omega arith) refl
      (omega arith)
