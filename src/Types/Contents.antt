-- ===== src/Types/Contents.antt =====
-- The datatypes that a structure was made of come back.
use mpif.Prelude.{
  ℕ, ◌≤◌, ◌≡◌, refl, sym, ap, ◌∙◌, List, [], ◌∷◌, ◌++◌, map, arith, length, take, drop, replicate,
  length-take, length-map,
}
use mpif.Prelude.Int.{ℤ, pos}
use mpif.Machine.{ok, Returns}
use mpif.Requests.Arrays.{convert_array-map, write_array-map}
use mpif.Types.{Described, mpi_type_create_struct, mpi_type_get_contents}

module _ (type_fromint type_toint : ℕ → ℕ) (datatype_null : ℕ)
    (create : ℤ → List ℕ → List ℕ → List ℕ → ℕ → ℕ × ℕ)
    (get_contents : ℕ → ℤ → ℤ → ℤ → List ℕ → List ℕ → List ℕ → Described) where
  -- The datatype `c` gives back the `n` datatypes that it was made of, whatever the arrays held.
  abbrev pub Keeps : ℕ → ℕ → List ℕ → Type 0
  Keeps c n c_types =
      (max_integers max_addresses : ℤ) (integers addresses before : List ℕ)
      → (get_contents c max_integers max_addresses (pos n) integers addresses before).datatypes
        ≡ c_types

  map_back :
      ((t : ℕ) → type_toint (type_fromint t) ≡ t)
      → (types : List ℕ) → map type_toint (map type_fromint types) ≡ types
  map_back back [] = refl
  map_back back (t ∷ types) = (λ i. back t i ∷ map_back back types i)

  module _ (n : ℕ) (blocklengths displacements types : List ℕ) where
    abbrev pub made : ℕ × ℕ
    made = create (pos n) blocklengths displacements (map type_fromint (take n types)) datatype_null

    -- Where handles survive their conversions, and MPI keeps what the structure was made of: the first
    -- `n` datatypes given to mpi_type_create_struct_ come back from mpi_type_get_contents_, which
    -- leaves the elements behind them.
    pub get_contents-create_struct :
        (max_integers max_addresses : ℤ) (integers addresses datatypes : List ℕ) (newtype : ℕ)
        → ((t : ℕ) → type_toint (type_fromint t) ≡ t)
        → type_fromint (type_toint made.1) ≡ made.1
        → Keeps made.1 n (map type_fromint (take n types))
        → n ≤ length types
        → n ≤ length datatypes
        → mpi_type_create_struct type_fromint type_toint datatype_null create
            (pos n)
            blocklengths
            displacements
            types
          ≡ ok (made.0, newtype)
        → Returns
            (λ r. r.datatypes ≡ take n types ++ drop n datatypes)
            (mpi_type_get_contents type_fromint type_toint datatype_null get_contents newtype
              max_integers max_addresses
              (pos n)
              integers
              addresses
              datatypes)
    unfolding mpi_type_create_struct mpi_type_get_contents
    get_contents-create_struct mi ma ints adds datatypes newtype back handle keeps given room
          created =
        let converted = convert_array-map type_fromint types n given in
        let pair : ok (made.0, type_toint made.1) ≡ ok (made.0, newtype) =
          sym (rw (converted, mpi_type_create_struct) refl) ∙ created in
        let same : type_toint made.1 ≡ newtype = ground (arith, pair) in
        let there : type_fromint newtype ≡ made.1 = ap type_fromint (sym same) ∙ handle in
        let before = replicate n datatype_null in
        let got =
          ap (λ c. (get_contents c mi ma (pos n) ints adds before).datatypes) there
          ∙ keeps mi ma ints adds before in
        let whole =
          ap length got ∙ (length-map type_fromint (take n types) ∙ length-take n types given) in
        let done = get_contents (type_fromint newtype) mi ma (pos n) ints adds before in
        let put = write_array-map type_toint datatypes done.datatypes n room whole in
        (
          record done { datatypes = map type_toint done.datatypes ++ drop n datatypes },
          rw (put, mpi_type_get_contents) refl,
          ap (λ l. map type_toint l ++ drop n datatypes) got
              ∙ ap (λ l. l ++ drop n datatypes) (map_back back (take n types)),
        )
