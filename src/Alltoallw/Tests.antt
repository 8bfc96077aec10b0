-- ===== src/Alltoallw/Tests.antt =====
-- tests
-- Two processes, in a Cartesian topology of one dimension.
use mpif.Fixtures.{cells}
use mpif.Prelude.{ℕ, ◌+◌, ◌*◌, ◌≡◌, refl, inl, inr, false, List, [], ◌∷◌, arith}
use mpif.Prelude.Int.{pos}
use mpif.Machine.{ok, fault}
use mpif.Root.{root_of}
use mpif.Sentinels.{mpif_c_cbuffer}
use mpif.Requests.{convert_array}
use mpif.Alltoallw.{
  Asked, called, Side, cart, Topologies, mpi_gather, group_size_of, convert_types, send_types,
  mpi_alltoallw, mpi_neighbor_alltoallw,
}
use mpif.Alltoallw.Sizes.{
  local, cartesian, converted_send, converted_recv, alltoallw-called, neighbor_alltoallw-called,
}

abbrev mpi : Asked
mpi = record {
  comms = record { comm_test_inter = λ c. (0, false); comm_rank = λ c. (0, 1) };
  comm_size = λ c. (0, pos 2);
  comm_remote_size = λ c. (0, pos 0);
  comm_fromint = λ c. c + 2000;
  type_fromint = λ t. t + 1000;
  datatype_null = 999;
}

abbrev topologies : Topologies
topologies = record {
  topo_test = λ c. (0, cart);
  cartdim_get = λ c. (0, pos 1);
  graph_neighbors_count = λ c r. (16, pos 0);
  dist_graph_neighbors_count = λ c. (16, pos 0, pos 0);
}

-- A buffer with two datatypes and what follows them, and a buffer in place without any.
abbrev there : Side
there = record { buf = 500; counts = 600; displs = 700; types = 3 ∷ 4 ∷ 77 ∷ [] }

abbrev here : Side
here = record { buf = 101; counts = 0; displs = 0; types = [] }

-- What MPI gets, as a number that tells the datatypes.
abbrev sum_of : List ℕ → ℕ
sum_of [] = 0
sum_of (t ∷ types) = t + sum_of types

abbrev alltoallw : Side → Side → ℕ → ℕ
alltoallw send recv comm = sum_of send.types * 10000 + sum_of recv.types

-- The process with rank 1 does not read the datatype that only the root gives.
mpi_gather_elsewhere :
    mpi_gather cells mpi (λ sb sc st rb rc rt root comm. rt) 500 1 3 600 1 4 0 9 ≡ called 999
unfolding mpi_gather root_of
mpi_gather_elsewhere = refl

-- A receive side without datatypes is read behind its array.
alltoallw_beyond : mpi_alltoallw cells mpi alltoallw there here 9 ≡ fault
unfolding mpi_alltoallw group_size_of convert_types send_types convert_array mpif_c_cbuffer
alltoallw_beyond = refl

alltoallw-called_example :
    mpi_alltoallw cells mpi alltoallw here there 9
    ≡ ok (
        called
          (alltoallw (converted_send cells mpi here 2) (converted_recv cells mpi there 2) 2009))
unfolding mpif_c_cbuffer
alltoallw-called_example =
    alltoallw-called cells mpi alltoallw here there 9 (pos 2) (local refl refl)
      record { sends = inl refl; receives = omega arith }

neighbor_alltoallw-called_example :
    mpi_neighbor_alltoallw cells mpi topologies alltoallw there there 9
    ≡ ok (
        called
          (alltoallw (converted_send cells mpi there 2) (converted_recv cells mpi there 2) 2009))
neighbor_alltoallw-called_example =
    neighbor_alltoallw-called cells mpi topologies alltoallw there there 9 (pos 2) (pos 2)
      (cartesian refl refl) record { sends = inr (omega arith); receives = omega arith }
