-- ===== src/Requests/Index.antt =====
-- gen/mpif_functions.c, mpi_waitany_ and its kin: which request an index of Fortran names.
use mpif.Prelude.{
  ℕ, zero, suc, ◌≤◌, ◌<◌, ◌≡◌, refl, sym, subst, Option, none, some, List, [], ◌∷◌, ◌++◌, map,
  length, take, drop, get_elem?, get_elem?-some, get_elem?-map,
}
use mpif.Prelude.Int.{ℤ, pos, negsuc}
use mpif.Machine.{Returns}
use mpif.Sentinels.{Cells, mpif_c_status}
use mpif.Requests.{rounds, to_fortran, Waitany, mpi_waitany}
use mpif.Requests.Arrays.{convert_array-map, write_array-map}

-- The element that an index of Fortran names: the first is 1.
abbrev pub element : List ℕ → ℤ → Option ℕ
element array (pos zero) = none
element array (pos (suc i)) = get_elem? array i
element array (negsuc n) = none

-- The routine of MPI completed one of `n` requests, or none.
abbrev pub InRange : ℕ → ℤ → Type 0
InRange n (pos i) = i < n
InRange n (negsuc k) = Unit

get_elem?-append {ℓ} :
    {A : Type ℓ} (xs ys : List A) (i : ℕ) (a : A)
    → get_elem? xs i ≡ some a
    → get_elem? (xs ++ ys) i ≡ some a
get_elem?-append [] ys i a h = absurd (cc)
get_elem?-append (x ∷ xs) ys zero a h = h
get_elem?-append (x ∷ xs) ys (suc i) a h = get_elem?-append xs ys i a h

module _ (cells : Cells) (request_fromint request_toint : ℕ → ℕ) where
  -- How the index that is passed back relates to MPI's.
  pub data Names (c_requests : List ℕ) (c_index : ℤ) (requests : List ℕ) (index : ℤ) : Type 0 where
    request :
        (i h : ℕ)
        → c_index ≡ pos i
        → get_elem? c_requests i ≡ some h
        → element requests index ≡ some (request_toint h)
        → Names c_requests c_index requests index
    undefined :
        (n : ℕ) → c_index ≡ negsuc n → index ≡ negsuc n → Names c_requests c_index requests index

  names :
      (c_requests behind : List ℕ) (c_index : ℤ)
      → InRange (length c_requests) c_index
      → Names c_requests c_index (map request_toint c_requests ++ behind) (to_fortran c_index)
  names c_requests behind (pos i) within =
      let (h, at) = get_elem?-some c_requests i within in
      request i h refl at (
        get_elem?-append (map request_toint c_requests) behind i (request_toint h)
          (get_elem?-map request_toint c_requests i h at))
  names c_requests behind (negsuc n) within = undefined n refl refl

  -- If MPI gives as many handles as it got, and an index among them or a negative one, mpi_waitany_
  -- returns: MPI got the converted handles; each handle is written back, and what is behind stays;
  -- and the index passed back names, counted from 1, the handle that MPI's index names from 0.
  pub waitany-Names :
      (waitany : ℤ → List ℕ → ℤ → ℕ → Waitany) (count : ℤ) (requests : List ℕ) (index : ℤ)
      (status : ℕ)
      → rounds count ≤ length requests
      → let done =
          waitany count
            (map request_fromint (take (rounds count) requests))
            index
            (mpif_c_status cells status) in
        length done.requests ≡ rounds count
        → InRange (rounds count) done.index
        → Returns
            (λ r.
              (r.ierror ≡ done.ierror)
              × (r.requests ≡ map request_toint done.requests ++ drop (rounds count) requests)
              × Names done.requests done.index r.requests r.index)
            (mpi_waitany cells request_fromint request_toint waitany count requests index status)
  unfolding mpi_waitany
  waitany-Names waitany count requests index status within all in_range =
      let n = rounds count in
      let asked = map request_fromint (take n requests) in
      let done = waitany count asked index (mpif_c_status cells status) in
      let got = convert_array-map request_fromint requests n within in
      let put = write_array-map request_toint requests done.requests n within all in
      let named =
        names done.requests (drop n requests) done.index
          (subst (λ k. InRange k done.index) (sym all) in_range) in
      (
        record {
          ierror = done.ierror;
          requests = map request_toint done.requests ++ drop n requests;
          index = to_fortran done.index;
        },
        rw (got, put, mpi_waitany) refl,
        (refl, refl, named),
      )
