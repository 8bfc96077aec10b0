-- ===== src/Cdesc/Entry/Calls.antt =====
-- gen/mpif_f08_cdesc.c: entry points of each shape. A routine of MPI is a function from its arguments to
-- its error code, with the request where it gives one; those not named differ in the routine alone.
use mpif.Prelude.{[], ℕ, Bool, true, if◌then◌else◌}
use mpif.Machine.{Run, ok}
use mpif.Root.{Comms, error, at_root, root_of}
use mpif.Sentinels.{Cells, mpif_c_status}
use mpif.Cdesc.{Descriptor, Datatypes}
use mpif.Cdesc.Entry.{
  Choice, Message, Reply, refused, Done, with_buffer, with_buffers, with_contiguous,
  both_contiguous,
}

-- The conversions of handles, and MPI_DATATYPE_NULL.
pub record Handles (H : Type 0) : Type 0 where
  pub type_fromint : ℕ → H
  pub datatype_null : H
  pub comm_fromint : ℕ → ℕ
  pub op_fromint : ℕ → ℕ
  pub win_fromint : ℕ → ℕ
  pub file_fromint : ℕ → ℕ
  pub request_toint : ℕ → ℕ
  pub comms : Comms

module _ {H : Type 0} (cells : Cells) (mpi : Datatypes H) (is_contiguous : Descriptor → Bool)
    (handles : Handles H) where
  open handles use {
    type_fromint, datatype_null, comm_fromint, op_fromint, win_fromint, file_fromint, request_toint,
    comms,
  }

  -- A message, and its destination, tag and communicator.
  abbrev pub Sends : Type 0 → Type 0
  Sends A = Message H → ℕ → ℕ → ℕ → A

  unfoldable pub mpi_send_cdesc : Sends ℕ → Choice → ℕ → ℕ → ℕ → ℕ → ℕ → Run (Done H ℕ)
  mpi_send_cdesc mpi_send buf count datatype dest tag comm =
      with_buffer cells mpi is_contiguous buf count (type_fromint datatype)
        (λ m. mpi_send m dest tag (comm_fromint comm))

  unfoldable pub mpi_ssend_cdesc : Sends ℕ → Choice → ℕ → ℕ → ℕ → ℕ → ℕ → Run (Done H ℕ)
  mpi_ssend_cdesc mpi_ssend buf count datatype dest tag comm =
      with_buffer cells mpi is_contiguous buf count (type_fromint datatype)
        (λ m. mpi_ssend m dest tag (comm_fromint comm))

  -- The answer is the error and the request, of which the wrapper writes the Fortran handle.
  unfoldable pub mpi_isend_cdesc : Sends (ℕ × ℕ) → Choice → ℕ → ℕ → ℕ → ℕ → ℕ → Run (Done H (ℕ × ℕ))
  mpi_isend_cdesc mpi_isend buf count datatype dest tag comm =
      with_buffer cells mpi is_contiguous buf count (type_fromint datatype) (λ m.
        let (ierror, c_request) = mpi_isend m dest tag (comm_fromint comm) in
        (ierror, request_toint c_request))

  unfoldable pub mpi_recv_cdesc :
      (Message H → ℕ → ℕ → ℕ → ℕ → ℕ) → Choice → ℕ → ℕ → ℕ → ℕ → ℕ → ℕ → Run (Done H ℕ)
  mpi_recv_cdesc mpi_recv buf count datatype source tag comm status =
      with_buffer cells mpi is_contiguous buf count (type_fromint datatype)
        (λ m. mpi_recv m source tag (comm_fromint comm) (mpif_c_status cells status))

  unfoldable pub mpi_bcast_cdesc : (Message H → ℕ → ℕ → ℕ) → Choice → ℕ → ℕ → ℕ → ℕ → Run (Done H ℕ)
  mpi_bcast_cdesc mpi_bcast buffer count datatype root comm =
      with_buffer cells mpi is_contiguous buffer count (type_fromint datatype)
        (λ m. mpi_bcast m root (comm_fromint comm))

  unfoldable pub mpi_file_write_cdesc :
      (ℕ → Message H → ℕ → ℕ) → ℕ → Choice → ℕ → ℕ → ℕ → Run (Done H ℕ)
  mpi_file_write_cdesc mpi_file_write fh buf count datatype status =
      with_buffer cells mpi is_contiguous buf count (type_fromint datatype)
        (λ m. mpi_file_write (file_fromint fh) m (mpif_c_status cells status))

  unfoldable pub mpi_put_cdesc :
      (Message H → ℕ → ℕ → ℕ → H → ℕ → ℕ) → Choice → ℕ → ℕ → ℕ → ℕ → ℕ → ℕ → ℕ → Run (Done H ℕ)
  mpi_put_cdesc mpi_put origin_addr origin_count origin_datatype target_rank target_disp
        target_count target_datatype win =
      with_buffer cells mpi is_contiguous origin_addr origin_count (type_fromint origin_datatype)
        (λ m.
          mpi_put m target_rank target_disp target_count (type_fromint target_datatype)
            (win_fromint win))

  unfoldable pub mpi_accumulate_cdesc :
      (Message H → ℕ → ℕ → ℕ → H → ℕ → ℕ → ℕ)
      → Choice
      → ℕ
      → ℕ
      → ℕ
      → ℕ
      → ℕ
      → ℕ
      → ℕ
      → ℕ
      → Run (Done H ℕ)
  mpi_accumulate_cdesc mpi_accumulate origin_addr origin_count origin_datatype target_rank
        target_disp target_count target_datatype op win =
      with_buffer cells mpi is_contiguous origin_addr origin_count (type_fromint origin_datatype)
        (λ m.
          mpi_accumulate m target_rank target_disp target_count (type_fromint target_datatype)
            (op_fromint op) (win_fromint win))

  unfoldable pub mpi_allgather_cdesc :
      (Message H → Message H → ℕ → ℕ) → Choice → ℕ → ℕ → Choice → ℕ → ℕ → ℕ → Run (Done H ℕ)
  mpi_allgather_cdesc mpi_allgather sendbuf sendcount sendtype recvbuf recvcount recvtype comm =
      with_buffers cells mpi is_contiguous true sendbuf sendcount (type_fromint sendtype) true
        recvbuf recvcount (type_fromint recvtype) (λ s r. mpi_allgather s r (comm_fromint comm))

  unfoldable pub mpi_sendrecv_cdesc :
      (Message H → ℕ → ℕ → Message H → ℕ → ℕ → ℕ → ℕ → ℕ)
      → Choice
      → ℕ
      → ℕ
      → ℕ
      → ℕ
      → Choice
      → ℕ
      → ℕ
      → ℕ
      → ℕ
      → ℕ
      → ℕ
      → Run (Done H ℕ)
  mpi_sendrecv_cdesc mpi_sendrecv sendbuf sendcount sendtype dest sendtag recvbuf recvcount recvtype
        source recvtag comm status =
      with_buffers cells mpi is_contiguous true sendbuf sendcount (type_fromint sendtype) true
        recvbuf recvcount (type_fromint recvtype)
        (λ s r.
          mpi_sendrecv s dest sendtag r source recvtag (comm_fromint comm)
            (mpif_c_status cells status))

  -- Where the question for the root fails, its error is the reply and nothing is made.
  abbrev pub not_asked : {A : Type 0} → ℕ → Done H A
  not_asked err = record { reply = refused err; created = []; freed = [] }

  -- The receive buffer counts at the root alone.
  unfoldable pub mpi_gather_cdesc :
      (Message H → Message H → ℕ → ℕ → ℕ) → Choice → ℕ → ℕ → Choice → ℕ → ℕ → ℕ → ℕ → Run (Done H ℕ)
  mpi_gather_cdesc mpi_gather sendbuf sendcount sendtype recvbuf recvcount recvtype root comm =
      elim (root_of comms (comm_fromint comm) root) [
        | error q_ierror ↦ ok (not_asked q_ierror)
        | at_root q_at_root ↦
            with_buffers cells mpi is_contiguous true sendbuf sendcount (type_fromint sendtype)
              q_at_root recvbuf recvcount
              (if q_at_root then type_fromint recvtype else datatype_null)
              (λ s r. mpi_gather s r root (comm_fromint comm))
      ]

  -- The send buffer counts at the root alone.
  unfoldable pub mpi_scatter_cdesc :
      (Message H → Message H → ℕ → ℕ → ℕ) → Choice → ℕ → ℕ → Choice → ℕ → ℕ → ℕ → ℕ → Run (Done H ℕ)
  mpi_scatter_cdesc mpi_scatter sendbuf sendcount sendtype recvbuf recvcount recvtype root comm =
      elim (root_of comms (comm_fromint comm) root) [
        | error q_ierror ↦ ok (not_asked q_ierror)
        | at_root q_at_root ↦
            with_buffers cells mpi is_contiguous q_at_root sendbuf sendcount
              (if q_at_root then type_fromint sendtype else datatype_null) true recvbuf recvcount
              (type_fromint recvtype) (λ s r. mpi_scatter s r root (comm_fromint comm))
      ]

  -- The counts of the receive buffer and their displacements are arrays, passed by their address.
  unfoldable pub mpi_allgatherv_cdesc :
      (Message H → ℕ → ℕ → ℕ → H → ℕ → ℕ) → Choice → ℕ → ℕ → Choice → ℕ → ℕ → ℕ → ℕ → Run (Done H ℕ)
  mpi_allgatherv_cdesc mpi_allgatherv sendbuf sendcount sendtype recvbuf recvcounts displs recvtype
        comm =
      with_contiguous cells mpi is_contiguous sendbuf sendcount (type_fromint sendtype) recvbuf
        (λ s r. mpi_allgatherv s r recvcounts displs (type_fromint recvtype) (comm_fromint comm))

  -- With the error, MPI gives the new position.
  unfoldable pub mpi_pack_cdesc :
      (Message H → ℕ → ℕ → ℕ → ℕ → ℕ × ℕ)
      → Choice
      → ℕ
      → ℕ
      → Choice
      → ℕ
      → ℕ
      → ℕ
      → Run (Done H (ℕ × ℕ))
  mpi_pack_cdesc mpi_pack inbuf incount datatype outbuf outsize position comm =
      with_contiguous cells mpi is_contiguous inbuf incount (type_fromint datatype) outbuf
        (λ s r. mpi_pack s r outsize position (comm_fromint comm))

  unfoldable pub mpi_allreduce_cdesc :
      (ℕ → ℕ → ℕ → H → ℕ → ℕ → ℕ) → Choice → Choice → ℕ → ℕ → ℕ → ℕ → Reply ℕ
  mpi_allreduce_cdesc mpi_allreduce sendbuf recvbuf count datatype op comm =
      both_contiguous cells mpi is_contiguous sendbuf true recvbuf
        (λ s r. mpi_allreduce s r count (type_fromint datatype) (op_fromint op) (comm_fromint comm))

  unfoldable pub mpi_reduce_cdesc :
      (ℕ → ℕ → ℕ → H → ℕ → ℕ → ℕ → ℕ) → Choice → Choice → ℕ → ℕ → ℕ → ℕ → ℕ → Reply ℕ
  mpi_reduce_cdesc mpi_reduce sendbuf recvbuf count datatype op root comm =
      elim (root_of comms (comm_fromint comm) root) [
        | error q_ierror ↦ refused q_ierror
        | at_root q_at_root ↦
            both_contiguous cells mpi is_contiguous sendbuf q_at_root recvbuf (λ s r.
              mpi_reduce s r count (type_fromint datatype) (op_fromint op) root (comm_fromint comm))
      ]
