-- ===== src/Alltoallw.antt =====
-- gen/mpif_functions.c: mpi_gather_ and mpi_scatter_, which pass a datatype at the root alone, and
-- the routines with a datatype for each process or neighbour, whose arrays of datatypes are converted.
-- MPI's routine is a function from what it is given to its error code; an array that is passed on is
-- its address, and one that is read is the list of its elements.
pub mod Sizes
mod Tests
use mpif.Prelude.{
  ℕ, ◌+◌, ◌*◌, Bool, true, false, not, Option, none, some, List, [], ◌∷◌, ◌==◌, if◌then◌else◌,
  replicate,
}
use mpif.Prelude.Int.{ℤ, pos, negsuc}
use mpif.Machine.{Run, ok, ◌>>=◌}
use mpif.Abi.{mpi_success}
use mpif.Root.{Comms, error, at_root, root_of}
use mpif.Sentinels.{Cells, mpi_in_place, mpif_c_buffer, mpif_c_cbuffer}
use mpif.Requests.{rounds, convert_array}

-- The routines that the wrappers ask, each with its error code, and the conversions.
pub record Asked : Type 0 where
  pub comms : Comms
  pub comm_size : ℕ → ℕ × ℤ
  pub comm_remote_size : ℕ → ℕ × ℤ
  pub comm_fromint : ℕ → ℕ
  pub type_fromint : ℕ → ℕ
  pub datatype_null : ℕ

-- The error of a routine that was asked, before MPI is called, or MPI's own.
pub data Reply (A : Type 0) : Type 0 where
  not_called : ℕ → Reply A
  called : A → Reply A

-- A buffer, its counts and displacements and its datatypes.
pub record Side : Type 0 where
  pub buf : ℕ
  pub counts : ℕ
  pub displs : ℕ
  pub types : List ℕ

-- The topologies of a communicator: the sizes of the Cartesian one, of the neighbours in a graph, and
-- the degrees in a distributed graph.
pub data Topology : Type 0 where
  cart graph dist_graph other : Topology

pub record Topologies : Type 0 where
  pub topo_test : ℕ → ℕ × Topology
  pub cartdim_get : ℕ → ℕ × ℤ
  pub graph_neighbors_count : ℕ → ℕ → ℕ × ℤ
  pub dist_graph_neighbors_count : ℕ → ℕ × ℤ × ℤ

abbrev pub double : ℤ → ℤ
double (pos n) = pos (2 * n)
double (negsuc n) = negsuc (2 * n + 1)

module _ (cells : Cells) (mpi : Asked) where
  open mpi use {comms, comm_size, comm_remote_size, comm_fromint, type_fromint, datatype_null}

  unfoldable pub mpi_gather :
      (ℕ → ℕ → ℕ → ℕ → ℕ → ℕ → ℕ → ℕ → ℕ) → ℕ → ℕ → ℕ → ℕ → ℕ → ℕ → ℕ → ℕ → Reply ℕ
  mpi_gather gather sendbuf sendcount sendtype recvbuf recvcount recvtype root comm =
      elim (root_of comms (comm_fromint comm) root) [
        | error q_ierror ↦ not_called q_ierror
        | at_root q_at_root ↦ called (
            gather (mpif_c_cbuffer cells sendbuf) sendcount (type_fromint sendtype)
              (mpif_c_buffer cells recvbuf) recvcount
              (if q_at_root then type_fromint recvtype else datatype_null) root (comm_fromint comm))
      ]

  unfoldable pub mpi_scatter :
      (ℕ → ℕ → ℕ → ℕ → ℕ → ℕ → ℕ → ℕ → ℕ) → ℕ → ℕ → ℕ → ℕ → ℕ → ℕ → ℕ → ℕ → Reply ℕ
  mpi_scatter scatter sendbuf sendcount sendtype recvbuf recvcount recvtype root comm =
      elim (root_of comms (comm_fromint comm) root) [
        | error q_ierror ↦ not_called q_ierror
        | at_root q_at_root ↦ called (
            scatter (mpif_c_cbuffer cells sendbuf) sendcount
              (if q_at_root then type_fromint sendtype else datatype_null)
              (mpif_c_buffer cells recvbuf) recvcount (type_fromint recvtype) root
              (comm_fromint comm))
      ]

  -- `q_group_size`, or the error of the routine that failed.
  unfoldable pub group_size_of : ℕ → ℕ × ℤ
  group_size_of q_comm =
      let (q_ierror, q_inter) = comms.comm_test_inter q_comm in
      if q_ierror == mpi_success
      then (if q_inter then comm_remote_size q_comm else comm_size q_comm)
      else (q_ierror, pos 0)

  -- The loop over the datatypes of the send buffer, which are not read for a buffer in place.
  unfoldable pub send_types : ℕ → List ℕ → ℕ → Run (List ℕ)
  send_types q_sendbuf sendtypes n =
      if not (q_sendbuf == mpi_in_place)
      then convert_array type_fromint sendtypes n
      else ok (replicate n datatype_null)

  -- From the two sizes on.
  unfoldable pub convert_types :
      {A : Type 0} → (Side → Side → ℕ → A) → Side → Side → ℕ → ℤ → ℤ → Run (Reply A)
  convert_types call send recv comm outdegree indegree = do
    c_sendtypes ← send_types (mpif_c_cbuffer cells send.buf) send.types (rounds outdegree)
    c_recvtypes ← convert_array type_fromint recv.types (rounds indegree)
    ok (
        called (
          call (record send { buf = mpif_c_cbuffer cells send.buf; types = c_sendtypes })
            (record recv { buf = mpif_c_buffer cells recv.buf; types = c_recvtypes })
            (comm_fromint comm)))

  unfoldable pub mpi_alltoallw : (Side → Side → ℕ → ℕ) → Side → Side → ℕ → Run (Reply ℕ)
  mpi_alltoallw alltoallw send recv comm =
      let (q_ierror, q_group_size) = group_size_of (comm_fromint comm) in
      if q_ierror == mpi_success
      then convert_types alltoallw send recv comm q_group_size q_group_size
      else ok (not_called q_ierror)

  -- The answer is the error and the request, which is converted.
  unfoldable pub mpi_ialltoallw :
      (ℕ → ℕ) → (Side → Side → ℕ → ℕ × ℕ) → Side → Side → ℕ → Run (Reply (ℕ × ℕ))
  mpi_ialltoallw request_toint ialltoallw send recv comm =
      let (q_ierror, q_group_size) = group_size_of (comm_fromint comm) in
      if q_ierror == mpi_success
      then convert_types
          (λ s r c. let (ierror, c_request) = ialltoallw s r c in (ierror, request_toint c_request))
          send recv comm q_group_size q_group_size
      else ok (not_called q_ierror)

  module _ (topologies : Topologies) where
    open topologies use {topo_test, cartdim_get, graph_neighbors_count, dist_graph_neighbors_count}

    -- The two degrees for a topology, `q_outdegree` first.
    unfoldable pub degrees_for : Topology → ℕ → ℕ × ℤ × ℤ
    degrees_for cart q_comm =
        let (e, q_ndims) = cartdim_get q_comm in (e, double q_ndims, double q_ndims)
    degrees_for graph q_comm =
        let (e, q_neighbor_rank) = comms.comm_rank q_comm in
        let (f, q_nneighbors) = graph_neighbors_count q_comm q_neighbor_rank in
        if e == mpi_success then (f, q_nneighbors, q_nneighbors) else (e, pos 0, pos 0)
    degrees_for dist_graph q_comm =
        let (e, q_indegree, q_outdegree) = dist_graph_neighbors_count q_comm in
        (e, q_outdegree, q_indegree)
    degrees_for other q_comm = (mpi_success, pos 0, pos 0)

    unfoldable pub mpi_neighbor_alltoallw : (Side → Side → ℕ → ℕ) → Side → Side → ℕ → Run (Reply ℕ)
    mpi_neighbor_alltoallw neighbor_alltoallw send recv comm =
        let (t_ierror, q_topology) = topo_test (comm_fromint comm) in
        let (d_ierror, q_outdegree, q_indegree) = degrees_for q_topology (comm_fromint comm) in
        if t_ierror == mpi_success
        then (if d_ierror == mpi_success
            then convert_types neighbor_alltoallw send recv comm q_outdegree q_indegree
            else ok (not_called d_ierror))
        else ok (not_called t_ierror)
