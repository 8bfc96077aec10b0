-- ===== src/Topology/Tests.antt =====
-- A communicator of two dimensions, of which the first is periodic.
use mpif.Prelude.{ℕ, ◌≡◌, ◌≢◌, refl, List, [], ◌∷◌, ◌++◌, map, arith, take, drop}
use mpif.Prelude.Int.{ℤ, pos}
use mpif.Machine.{Returns, ok}
use mpif.Requests.{convert_array}
use mpif.Logical.{mpif_logical2bool}
use mpif.Topology.{CartGet, Handles, to_logical, mpi_cart_create, mpi_cart_get}
use mpif.Topology.Periods.{IsWritten, cart_get-IsWritten}
use mpif.Topology.Created.{Keeps, cart_get-cart_create}

abbrev handles : Handles
handles = record { comm_fromint = λ c. c; comm_toint = λ c. c; comm_null = 0 }

abbrev cart_create : ℕ → ℤ → List ℕ → List ℕ → ℕ → ℕ → ℕ × ℕ
cart_create comm ndims dims periods reorder null = (0, 55)

abbrev cart_get : ℕ → ℤ → List ℕ → List ℕ → List ℕ → CartGet
cart_get comm maxdims dims periods coords = record {
  ierror = 0;
  dims = 3 ∷ 4 ∷ [];
  periods = 1 ∷ 0 ∷ [];
  coords = 0 ∷ 0 ∷ [];
}

abbrev cartdim_get : ℕ → ℕ × ℤ
cartdim_get comm = (0, pos 2)

-- .TRUE. is 1 and .FALSE. is 0; 7 counts as true.
abbrev given : List ℕ
given = 7 ∷ 0 ∷ []

kept : Keeps handles 1 0 cart_create cart_get cartdim_get 55 2 (1 ∷ 0 ∷ [])
kept = record { handle = refl; dimensions = refl; periods = λ d p c. (refl, refl) }

distinct : ◌≢◌ {A = ℕ} 1 0
distinct e = cc

created : mpi_cart_create handles 1 0 cart_create 3 (pos 2) (3 ∷ 4 ∷ []) given 0 ≡ ok (0, 55)
unfolding mpi_cart_create convert_array
created = refl

cart_get-cart_create_example :
    Returns
      (λ r. r.periods ≡ 1 ∷ 0 ∷ 9 ∷ [])
      (mpi_cart_get handles 1 0 cart_get cartdim_get 55 (pos 2) [] (8 ∷ 8 ∷ 9 ∷ []) [])
unfolding mpif_logical2bool
cart_get-cart_create_example =
    cart_get-cart_create handles 1 0 cart_create cart_get cartdim_get 3 2 (3 ∷ 4 ∷ []) given 0 55 []
      (8 ∷ 8 ∷ 9 ∷ []) [] kept distinct (omega arith) (omega arith) created

cart_get-IsWritten_test :
    Returns
      (λ r.
        (r.ierror ≡ 0)
        × ((k : ℕ) × IsWritten 0 (0, pos 2) (pos 2) k
            × (r.periods
                ≡ map (to_logical handles 1 0) (take k (1 ∷ 0 ∷ [])) ++ drop k (8 ∷ 8 ∷ 9 ∷ []))))
      (mpi_cart_get handles 1 0 cart_get cartdim_get 55 (pos 2) [] (8 ∷ 8 ∷ 9 ∷ []) [])
cart_get-IsWritten_test =
    cart_get-IsWritten handles 1 0 cart_get cartdim_get 55 (pos 2) [] (8 ∷ 8 ∷ 9 ∷ []) []
      (omega arith) (omega arith)
