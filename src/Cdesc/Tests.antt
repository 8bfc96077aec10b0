-- ===== src/Cdesc/Tests.antt =====
-- A section of an array of two by three strided elements, each of two units of four bytes. A
-- datatype is given by its offsets and its extent, and its lower bound is 0.
use mpif.Prelude.{◌≤◌, ◌≡◌, refl, List, [], ◌∷◌, All, arith}
use mpif.Prelude.Int.{ℤ, pos, ◌*ℤ◌}
use mpif.Machine.{Returns, fault}
use mpif.Cdesc.{Descriptor, Datatypes, mpif_cdesc_create_datatype}
use mpif.Cdesc.Section.{copies}
use mpif.Cdesc.Owned.{OnOk, Balanced, cdesc_create_datatype-Balanced}
use mpif.Cdesc.Walk.{OnSome, Documented}
use mpif.Cdesc.Empty.{empty_dimension-fault}
use mpif.Cdesc.Layout.{IsSection, cdesc_create_datatype-IsSection}

abbrev pub Layout : Type 0
Layout = List ℤ × ℤ

abbrev pub mpi : Datatypes Layout
mpi = record {
  type_size_c = λ t. (0, pos 4);
  type_get_extent_c = λ t. (0, pos 0, t.1);
  type_contiguous_c = λ n t. (0, (copies 0 n t.1 t.0, t.1 *ℤ pos n));
  type_create_hvector_c = λ n b sm t. (0, (copies 0 n sm t.0, t.1));
  type_commit = λ t. 0;
}

abbrev pub offsets : Layout → List ℤ
offsets t = t.0

abbrev pub lb : Layout → ℤ
lb t = pos 0

abbrev pub extent : Layout → ℤ
extent t = t.1

pub documented : Documented mpi offsets lb extent
documented = record {
  get_extent = λ t e. (refl, refl);
  contiguous_offsets = λ n t e. refl;
  contiguous_extent = λ n t e l. (refl, refl);
  hvector_offsets = λ n sm t e. refl;
}

abbrev pub array : Descriptor
array = record {
  elem_len = 8;
  dim = record { extent = 2; sm = pos 16 } ∷ record { extent = 3; sm = pos 48 } ∷ [];
}

abbrev pub oldtype : Layout
oldtype = (pos 0 ∷ [], pos 4)

pub array_solid : All (λ d. 1 ≤ d.extent) array.dim
array_solid = (omega arith, (omega arith, tt))

cdesc_create_datatype-IsSection_example :
    Returns
      (λ r. OnSome (IsSection mpi offsets lb extent documented array 8 oldtype) r.newtype)
      (mpif_cdesc_create_datatype mpi array 8 oldtype)
cdesc_create_datatype-IsSection_example =
    cdesc_create_datatype-IsSection mpi offsets lb extent documented array 8 oldtype (omega arith)
      array_solid

cdesc_create_datatype-Balanced_example :
    OnOk Balanced (mpif_cdesc_create_datatype mpi array 8 oldtype)
cdesc_create_datatype-Balanced_example = cdesc_create_datatype-Balanced mpi array 8 oldtype

empty_dimension-fault_example :
    mpif_cdesc_create_datatype mpi
      (record {
        elem_len = 4;
        dim = record { extent = 0; sm = pos 16 } ∷ record { extent = 3; sm = pos 48 } ∷ [];
      })
      1
      oldtype
    ≡ fault
empty_dimension-fault_example =
    empty_dimension-fault mpi 3 1 (pos 16) (record { extent = 3; sm = pos 48 }) [] oldtype refl
      (λ t. refl) (λ k t. refl) (λ k b s t. refl) (omega arith)
