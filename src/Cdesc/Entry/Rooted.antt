-- ===== src/Cdesc/Entry/Rooted.antt =====
-- The entry points that ask for the root, and those whose buffers have to be contiguous.
use mathlib.Core.List.{Perm}
use mpif.Prelude.{
  ℕ, ◌≡◌, refl, ◌⊎◌, inl, inr, Bool, true, false, ◌&&◌, List, if◌then◌else◌, Bool-cases,
}
use mpif.Prelude.Int.{ℤ}
use mpif.Machine.{Returns}
use mpif.Abi.{mpi_err_buffer}
use mpif.Root.{at_root, root_of}
use mpif.Sentinels.{Cells, mpif_c_buffer}
use mpif.Cdesc.{Descriptor, Datatypes}
use mpif.Cdesc.Walk.{Documented}
use mpif.Cdesc.Entry.{
  Choice, Message, refused, answered, is_strided, refuse_strided, both_contiguous,
}
use mpif.Cdesc.Entry.Buffer.{IsSolid}
use mpif.Cdesc.Entry.Plain.{IsPlain, IsGapped, is_strided-cases}
use mpif.Cdesc.Entry.Buffers.{DeliversBoth, with_buffers-DeliversBoth}
use mpif.Cdesc.Entry.Calls.{Handles, mpi_gather_cdesc, mpi_scatter_cdesc, mpi_reduce_cdesc}

module _ {H : Type 0} (cells : Cells) (mpi : Datatypes H) (is_contiguous : Descriptor → Bool)
    (handles : Handles H) where
  open handles use {type_fromint, datatype_null, comm_fromint, op_fromint, comms}

  module _ (offsets : H → List ℤ) (lb extent : H → ℤ) (law : Documented mpi offsets lb extent)
      (mpi_call : Message H → Message H → ℕ → ℕ → ℕ) (sendbuf : Choice) (sendcount sendtype : ℕ)
      (recvbuf : Choice) (recvcount recvtype root comm : ℕ) (here : Bool) where
    -- For buffers with elements, MPI's constructors as documented, and where it is known whether this
    -- process is the root: MPI_Gather through descriptors
    -- delivers the send buffer everywhere and the receive buffer at the root alone, where it has the
    -- datatype that was passed, and MPI_DATATYPE_NULL elsewhere; MPI_Scatter the other way round. All
    -- datatypes that were made are freed, also if MPI is not called.
    pub gather_cdesc-DeliversBoth :
        IsSolid sendbuf.cdesc
        → IsSolid recvbuf.cdesc
        → root_of comms (comm_fromint comm) root ≡ at_root here
        → Returns
            (λ d.
              DeliversBoth cells mpi is_contiguous offsets lb extent law true sendbuf sendcount
                (type_fromint sendtype)
                here
                recvbuf
                recvcount
                (if here then type_fromint recvtype else datatype_null)
                (λ s r. mpi_call s r root (comm_fromint comm))
                d
              × Perm d.freed d.created)
            (mpi_gather_cdesc cells mpi is_contiguous handles mpi_call sendbuf sendcount sendtype
              recvbuf recvcount recvtype root comm)
          × Returns
              (λ d.
                DeliversBoth cells mpi is_contiguous offsets lb extent law here sendbuf sendcount
                  (if here then type_fromint sendtype else datatype_null)
                  true
                  recvbuf
                  recvcount
                  (type_fromint recvtype)
                  (λ s r. mpi_call s r root (comm_fromint comm))
                  d
                × Perm d.freed d.created)
              (mpi_scatter_cdesc cells mpi is_contiguous handles mpi_call sendbuf sendcount sendtype
                recvbuf recvcount recvtype root comm)
    unfolding mpi_gather_cdesc mpi_scatter_cdesc
    gather_cdesc-DeliversBoth send_solid recv_solid asked = (
      rw (asked, mpi_gather_cdesc)
          (with_buffers-DeliversBoth cells mpi is_contiguous offsets lb extent law true sendbuf
            sendcount (type_fromint sendtype) here recvbuf recvcount
            (if here then type_fromint recvtype else datatype_null) _ send_solid recv_solid),
      rw (asked, mpi_scatter_cdesc)
          (with_buffers-DeliversBoth cells mpi is_contiguous offsets lb extent law here sendbuf
            sendcount (if here then type_fromint sendtype else datatype_null) true recvbuf recvcount
            (type_fromint recvtype) _ send_solid recv_solid),
    )

  -- MPI_Reduce through descriptors, where it is known whether this process is the root, which is where
  -- the receive buffer counts. If the send buffer is a sentinel, a scalar or contiguous, and the
  -- receive buffer is or does not count here, MPI is called with the two addresses. Otherwise one that
  -- counts is an array with gaps at an address that is no sentinel, MPI is not called, and the
  -- reply is MPI_ERR_BUFFER.
  pub reduce_cdesc-Contiguous :
      (mpi_reduce : ℕ → ℕ → ℕ → H → ℕ → ℕ → ℕ → ℕ) (sendbuf recvbuf : Choice)
      (count datatype op root comm : ℕ) (here : Bool)
      → root_of comms (comm_fromint comm) root ≡ at_root here
      → let plain = IsPlain cells is_contiguous in
        let gapped = IsGapped cells is_contiguous in
        let reply =
          mpi_reduce_cdesc cells mpi is_contiguous handles mpi_reduce sendbuf recvbuf count datatype
            op root comm in
        (plain sendbuf
          × ((here ≡ false) ⊎ plain recvbuf)
          × (reply
              ≡ answered (
                  mpi_reduce
                    (mpif_c_buffer cells sendbuf.base_addr)
                    (mpif_c_buffer cells recvbuf.base_addr)
                    count
                    (type_fromint datatype)
                    (op_fromint op)
                    root
                    (comm_fromint comm))))
        ⊎ ((gapped sendbuf ⊎ ((here ≡ true) × gapped recvbuf)) × (reply ≡ refused mpi_err_buffer))
  unfolding mpi_reduce_cdesc both_contiguous refuse_strided
  reduce_cdesc-Contiguous mpi_reduce sendbuf recvbuf count datatype op root comm here asked =
      elim (is_strided-cases cells mpi is_contiguous sendbuf) [
        | inr (s, test_s) ↦ inr (
          inl s,
          elim (Bool-cases (here && is_strided cells mpi is_contiguous recvbuf)) [
            | inl r ↦ rw (asked, mpi_reduce_cdesc) (rw (test_s, r, refuse_strided) refl)
            | inr r ↦ rw (asked, mpi_reduce_cdesc) (rw (test_s, r, refuse_strided) refl)
          ],
        )
        | inl (s, test_s) ↦ elim (Bool-cases here) [
          | inr away ↦
              inl
                (s, inl away, rw (asked, away, mpi_reduce_cdesc) (rw (test_s, refuse_strided) refl))
          | inl at ↦ elim (is_strided-cases cells mpi is_contiguous recvbuf) [
            | inl (r, test_r) ↦ inl (
              s,
              inr r,
              rw (asked, at, mpi_reduce_cdesc) (rw (test_s, test_r, refuse_strided) refl),
            )
            | inr (r, test_r) ↦ inr (
              inr (at, r),
              rw (asked, at, mpi_reduce_cdesc) (rw (test_s, test_r, refuse_strided) refl),
            )
          ]
        ]
      ]
