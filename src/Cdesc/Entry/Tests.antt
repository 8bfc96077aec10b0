-- ===== src/Cdesc/Entry/Tests.antt =====
-- Entry points at the section of the walker's tests.
use mathlib.Core.List.{Perm}
use mpif.Fixtures.{cells}
use mpif.Prelude.{ℕ, ◌≡◌, refl, ◌⊎◌, Bool, true, false, [], ◌∷◌, arith, length, ◌*◌, ◌+◌}
use mpif.Prelude.Int.{pos, ◌+ℤ◌}
use mpif.Machine.{Returns, ok}
use mpif.Abi.{mpi_err_buffer}
use mpif.Root.{root_of, at_root}
use mpif.Sentinels.{mpif_c_buffer}
use mpif.Cdesc.{Descriptor, mpif_cdesc_create_datatype}
use mpif.Cdesc.Tests.{Layout, mpi, offsets, lb, extent, documented, array, oldtype, array_solid}
use mpif.Cdesc.Entry.{Choice, Message, refused, answered, is_strided, with_buffer, prepare}
use mpif.Cdesc.Entry.Calls.{
  Handles, mpi_send_cdesc, mpi_gather_cdesc, mpi_scatter_cdesc, mpi_reduce_cdesc,
}
use mpif.Cdesc.Entry.Buffer.{IsSolid, Delivers, with_buffer-Delivers}
use mpif.Cdesc.Entry.Buffers.{DeliversBoth}
use mpif.Cdesc.Entry.Plain.{IsPlain, IsGapped}
use mpif.Cdesc.Entry.Rooted.{gather_cdesc-DeliversBoth, reduce_cdesc-Contiguous}

abbrev handles : Handles Layout
handles = record {
  type_fromint = λ i. oldtype;
  datatype_null = ([], pos 0);
  comm_fromint = λ i. i;
  op_fromint = λ i. i;
  win_fromint = λ i. i;
  file_fromint = λ i. i;
  request_toint = λ i. i;
  comms = record { comm_test_inter = λ c. (0, false); comm_rank = λ c. (0, 2) };
}

-- No array is contiguous.
abbrev is_contiguous : Descriptor → Bool
is_contiguous d = false

abbrev strided : Choice
strided = record { base_addr = 5000; cdesc = array }

abbrev sentinel : Choice
sentinel = record { base_addr = 101; cdesc = array }

strided-IsSolid : IsSolid array
strided-IsSolid = record { some_length = omega arith; some_elements = array_solid }

-- The error of the call is the number of offsets that it gets.
abbrev counting : Message Layout → ℕ
counting m = m.count * length m.type.0

abbrev send_counting : Message Layout → ℕ → ℕ → ℕ → ℕ
send_counting m dest tag comm = counting m

-- Eight units are four elements of two units each, as one datatype.
send_strided :
    mpi_send_cdesc cells mpi is_contiguous handles send_counting strided 8 0 1 2 3
    ≡ ok record {
      reply = answered 8;
      created =
          (pos 0 ∷ pos 4 ∷ [], pos 8)
          ∷ (pos 0 ∷ pos 4 ∷ pos 16 ∷ pos 20 ∷ [], pos 8)
          ∷ (pos 0 ∷ pos 4 ∷ pos 16 ∷ pos 20 ∷ pos 48 ∷ pos 52 ∷ pos 64 ∷ pos 68 ∷ [], pos 8)
          ∷ [];
      freed =
          (pos 0 ∷ pos 4 ∷ [], pos 8)
          ∷ (pos 0 ∷ pos 4 ∷ pos 16 ∷ pos 20 ∷ [], pos 8)
          ∷ (pos 0 ∷ pos 4 ∷ pos 16 ∷ pos 20 ∷ pos 48 ∷ pos 52 ∷ pos 64 ∷ pos 68 ∷ [], pos 8)
          ∷ [];
    }
unfolding mpi_send_cdesc with_buffer prepare is_strided mpif_cdesc_create_datatype mpif_c_buffer
    ◌+ℤ◌
send_strided = refl

send_sentinel :
    mpi_send_cdesc cells mpi is_contiguous handles send_counting sentinel 8 0 1 2 3
    ≡ ok record { reply = answered 8; created = []; freed = [] }
unfolding mpi_send_cdesc with_buffer prepare is_strided mpif_c_buffer
send_sentinel = refl

with_buffer-Delivers_example :
    Returns
      (λ d.
        Delivers cells mpi is_contiguous offsets lb extent documented strided 8 oldtype counting d
        × (d.freed ≡ d.created))
      (with_buffer cells mpi is_contiguous strided 8 oldtype counting)
with_buffer-Delivers_example =
    with_buffer-Delivers cells mpi is_contiguous offsets lb extent documented strided 8 oldtype
      counting strided-IsSolid

abbrev gather_counting : Message Layout → Message Layout → ℕ → ℕ → ℕ
gather_counting s r root comm = counting s + counting r

is_root : root_of handles.comms 3 2 ≡ at_root true
unfolding root_of
is_root = refl

gather_cdesc-DeliversBoth_example :
    Returns
      (λ d.
        DeliversBoth cells mpi is_contiguous offsets lb extent documented true strided 8 oldtype
          true strided 4 oldtype
          (λ s r. gather_counting s r 2 3)
          d
        × Perm d.freed d.created)
      (mpi_gather_cdesc cells mpi is_contiguous handles gather_counting strided 8 0 strided 4 0 2 3)
    × Returns
        (λ d.
          DeliversBoth cells mpi is_contiguous offsets lb extent documented true strided 8 oldtype
            true strided 4 oldtype
            (λ s r. gather_counting s r 2 3)
            d
          × Perm d.freed d.created)
        (mpi_scatter_cdesc cells mpi is_contiguous handles gather_counting strided 8 0 strided 4 0 2
          3)
gather_cdesc-DeliversBoth_example =
    gather_cdesc-DeliversBoth cells mpi is_contiguous handles offsets lb extent documented
      gather_counting strided 8 0 strided 4 0 2 3 true strided-IsSolid strided-IsSolid is_root

abbrev reduce_counting : ℕ → ℕ → ℕ → Layout → ℕ → ℕ → ℕ → ℕ
reduce_counting s r count type op root comm = count

reduce_cdesc-Contiguous_example :
    (IsPlain cells is_contiguous sentinel
      × ((true ≡ false) ⊎ IsPlain cells is_contiguous strided)
      × (mpi_reduce_cdesc cells mpi is_contiguous handles reduce_counting sentinel strided 8 0 1 2 3
          ≡ answered 8))
    ⊎ ((IsGapped cells is_contiguous sentinel
          ⊎ ((true ≡ true) × IsGapped cells is_contiguous strided))
        × (mpi_reduce_cdesc cells mpi is_contiguous handles reduce_counting sentinel strided 8 0 1 2
              3
            ≡ refused mpi_err_buffer))
reduce_cdesc-Contiguous_example =
    reduce_cdesc-Contiguous cells mpi is_contiguous handles reduce_counting sentinel strided 8 0 1 2
      3 true is_root
