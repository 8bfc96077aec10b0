-- ===== src/Alltoallw/Sizes.antt =====
-- Which datatypes the routines give to MPI, and that they read no more of the arrays than there are
-- processes or neighbours.
use mpif.Prelude.{
  ℕ, ◌≤◌, ◌≡◌, refl, ◌⊎◌, inl, inr, true, false, Bool-cases, map, ◌==◌, if◌then◌else◌, arith,
  length, take, replicate,
}
use mpif.Prelude.Int.{ℤ}
use mpif.Machine.{ok}
use mpif.Abi.{mpi_success}
use mpif.Sentinels.{Cells, mpi_in_place, mpif_c_buffer, mpif_c_cbuffer}
use mpif.Requests.{rounds}
use mpif.Requests.Arrays.{convert_array-map}
use mpif.Alltoallw.{
  Asked, called, Side, cart, graph, dist_graph, Topologies, group_size_of, send_types,
  convert_types, mpi_alltoallw, double, degrees_for, mpi_neighbor_alltoallw,
}

module _ (cells : Cells) (mpi : Asked) where
  -- The arrays reach as far as MPI reads them; that of a send buffer in place is not read.
  pub record Reaches (send recv : Side) (outdegree indegree : ℕ) : Type 0 where
    pub sends : (mpif_c_cbuffer cells send.buf ≡ mpi_in_place) ⊎ (outdegree ≤ length send.types)
    pub receives : indegree ≤ length recv.types

  -- The sides as MPI gets them.
  abbrev pub converted_send : Side → ℕ → Side
  converted_send send n = record send {
    buf = mpif_c_cbuffer cells send.buf;
    types =
        if mpif_c_cbuffer cells send.buf == mpi_in_place
        then replicate n mpi.datatype_null
        else map mpi.type_fromint (take n send.types);
  }

  abbrev pub converted_recv : Side → ℕ → Side
  converted_recv recv n = record recv {
    buf = mpif_c_buffer cells recv.buf;
    types = map mpi.type_fromint (take n recv.types);
  }

  convert_types-called :
      {A : Type 0} (call : Side → Side → ℕ → A) (send recv : Side) (comm : ℕ) (out into : ℤ)
      → Reaches send recv (rounds out) (rounds into)
      → convert_types cells mpi call send recv comm out into
        ≡ ok (
            called (
              call
                (converted_send send (rounds out))
                (converted_recv recv (rounds into))
                (mpi.comm_fromint comm)))
  unfolding convert_types send_types
  convert_types-called call send recv comm out into reaches =
      let received = convert_array-map mpi.type_fromint recv.types (rounds into) reaches.receives in
      elim (Bool-cases (mpif_c_cbuffer cells send.buf == mpi_in_place)) [
        | inl here ↦ rw (here, received, convert_types, send_types) refl
        | inr there ↦ elim reaches.sends [
          | inl here ↦ absurd (ground arith)
          | inr enough ↦
              rw
                (
                  there,
                  received,
                  convert_array-map mpi.type_fromint send.types (rounds out) enough,
                  convert_types,
                  send_types,
                )
                refl
        ]
      ]

  -- How many processes take part, or neighbours on either side.
  pub data GroupSize (q_comm : ℕ) (n : ℤ) : Type 0 where
    local :
        (mpi.comms.comm_test_inter q_comm ≡ (mpi_success, false))
        → mpi.comm_size q_comm ≡ (mpi_success, n)
        → GroupSize q_comm n
    remote :
        (mpi.comms.comm_test_inter q_comm ≡ (mpi_success, true))
        → mpi.comm_remote_size q_comm ≡ (mpi_success, n)
        → GroupSize q_comm n

  -- For a communicator whose group, the remote one of an intercommunicator, has `n` processes, and
  -- arrays that reach as far, MPI_Alltoallw gets exactly the first `n` datatypes of each array, or
  -- MPI_DATATYPE_NULL for each process if the send buffer is in place, whose array is not read.
  pub alltoallw-called :
      (alltoallw : Side → Side → ℕ → ℕ) (send recv : Side) (comm : ℕ) (n : ℤ)
      → GroupSize (mpi.comm_fromint comm) n
      → Reaches send recv (rounds n) (rounds n)
      → mpi_alltoallw cells mpi alltoallw send recv comm
        ≡ ok (
            called (
              alltoallw
                (converted_send send (rounds n))
                (converted_recv recv (rounds n))
                (mpi.comm_fromint comm)))
  unfolding mpi_alltoallw group_size_of
  alltoallw-called alltoallw send recv comm n (local intra size) reaches =
      rw (intra, size, mpi_alltoallw, group_size_of)
        (convert_types-called alltoallw send recv comm n n reaches)
  alltoallw-called alltoallw send recv comm n (remote inter size) reaches =
      rw (inter, size, mpi_alltoallw, group_size_of)
        (convert_types-called alltoallw send recv comm n n reaches)

  module _ (topologies : Topologies) where
    -- The numbers of neighbours that are sent to and received from.
    pub data Degrees (q_comm : ℕ) : ℤ → ℤ → Type 0 where
      cartesian :
          {n : ℤ}
          → topologies.topo_test q_comm ≡ (mpi_success, cart)
          → topologies.cartdim_get q_comm ≡ (mpi_success, n)
          → Degrees q_comm (double n) (double n)
      in_graph :
          {n : ℤ} (rank : ℕ)
          → topologies.topo_test q_comm ≡ (mpi_success, graph)
          → mpi.comms.comm_rank q_comm ≡ (mpi_success, rank)
          → topologies.graph_neighbors_count q_comm rank ≡ (mpi_success, n)
          → Degrees q_comm n n
      distributed :
          {out into : ℤ}
          → topologies.topo_test q_comm ≡ (mpi_success, dist_graph)
          → topologies.dist_graph_neighbors_count q_comm ≡ (mpi_success, into, out)
          → Degrees q_comm out into

    -- For a communicator with a topology, and arrays that reach as far as its neighbours,
    -- MPI_Neighbor_alltoallw gets exactly one datatype for each neighbour that is sent to, and one for
    -- each that is received from: two for each dimension of a Cartesian topology, one for each
    -- neighbour in a graph, and as many as the degrees in a distributed graph.
    pub neighbor_alltoallw-called :
        (call : Side → Side → ℕ → ℕ) (send recv : Side) (comm : ℕ) (out into : ℤ)
        → Degrees (mpi.comm_fromint comm) out into
        → Reaches send recv (rounds out) (rounds into)
        → mpi_neighbor_alltoallw cells mpi topologies call send recv comm
          ≡ ok (
              called (
                call
                  (converted_send send (rounds out))
                  (converted_recv recv (rounds into))
                  (mpi.comm_fromint comm)))
    unfolding mpi_neighbor_alltoallw degrees_for
    neighbor_alltoallw-called call send recv comm out into (cartesian topo dims) reaches =
        rw (topo, dims, mpi_neighbor_alltoallw, degrees_for)
          (convert_types-called call send recv comm out into reaches)
    neighbor_alltoallw-called call send recv comm out into (in_graph rank topo ranked count)
          reaches =
        rw (topo, ranked, count, mpi_neighbor_alltoallw, degrees_for)
          (convert_types-called call send recv comm out into reaches)
    neighbor_alltoallw-called call send recv comm out into (distributed topo count) reaches =
        rw (topo, count, mpi_neighbor_alltoallw, degrees_for)
          (convert_types-called call send recv comm out into reaches)
