-- ===== src/Cdesc/Entry.antt =====
-- gen/mpif_f08_cdesc.c: the entry points that take a buffer as a descriptor. What they do with one
-- buffer, with two, and with a buffer that has to be contiguous stands here; the entry points
-- themselves are in Calls. MPI's routine is a function of the message that it is given.
pub mod Calls
pub mod Buffer
pub mod Buffers
pub mod Plain
pub mod Rooted
mod Tests
use mpif.Prelude.{
  ℕ, zero, suc, Bool, true, false, not, ◌&&◌, ◌||◌, Option, none, some, List, [], ◌∷◌, ◌++◌, ◌==◌,
  if◌then◌else◌, length,
}
use mpif.Machine.{Run, ok, ◌>>=◌}
use mpif.Abi.{mpi_success, mpi_err_buffer}
use mpif.Sentinels.{Cells, mpi_bottom, mpi_in_place, mpi_buffer_automatic, mpif_c_buffer}
use mpif.Cdesc.{Descriptor, Datatypes, Returned, mpif_cdesc_create_datatype}

abbrev pub mpif_cdesc_is_sentinel : ℕ → Bool
mpif_cdesc_is_sentinel p = p == mpi_bottom || p == mpi_in_place || p == mpi_buffer_automatic

-- A choice buffer: `base_addr` and the rest of the descriptor.
pub record Choice : Type 0 where
  pub base_addr : ℕ
  pub cdesc : Descriptor

-- What MPI is given for a buffer.
pub record Message (H : Type 0) : Type 0 where
  pub buf : ℕ
  pub count : ℕ
  pub type : H

-- `q_cdesc_err`, `q_…_count`, `q_…_type` and `q_…_owned`, with what the walker made and freed.
pub record Prepared (H : Type 0) : Type 0 where
  pub err : ℕ
  pub count : ℕ
  pub type : H
  pub owned : Bool
  pub created : List H
  pub freed : List H

-- MPI is not called, or gives its answer.
pub data Reply (A : Type 0) : Type 0 where
  refused : ℕ → Reply A
  answered : A → Reply A

-- The reply, and the datatypes that were made and freed in the call, in order.
pub record Done (H A : Type 0) : Type 0 where
  pub reply : Reply A
  pub created : List H
  pub freed : List H

abbrev pub get_or {ℓ} : {A : Type ℓ} → Option A → A → A
get_or none a = a
get_or (some b) a = b

module _ {H : Type 0} (cells : Cells) (mpi : Datatypes H) (is_contiguous : Descriptor → Bool) where
  -- `!mpif_cdesc_is_sentinel(q) && cdesc->rank != 0 && !CFI_is_contiguous(cdesc)`
  unfoldable pub is_strided : Choice → Bool
  is_strided c =
      not (mpif_cdesc_is_sentinel (mpif_c_buffer cells c.base_addr))
      && not (length c.cdesc.dim == 0)
      && not (is_contiguous c.cdesc)

  -- After the walker: `newtype` is written just if there is one.
  abbrev pub walked : ℕ → H → Returned H → Prepared H
  walked count type r = record {
    err = r.err;
    count = if r.err == mpi_success then 1 else count;
    type = get_or r.newtype type;
    owned = r.err == mpi_success;
    created = r.created;
    freed = r.freed;
  }

  -- The block for a buffer, from the error so far; `needed` is `q_at_root`, where a buffer counts at
  -- the root alone.
  unfoldable pub prepare : ℕ → Bool → Choice → ℕ → H → Run (Prepared H)
  prepare err needed c count type =
      if err == mpi_success && needed && is_strided c
      then mpif_cdesc_create_datatype mpi c.cdesc count type >>= (λ r. ok (walked count type r))
      else ok
          record { err = err; count = count; type = type; owned = false; created = []; freed = [] }

  abbrev pub freed_if_owned : Prepared H → List H
  freed_if_owned p = if p.owned then p.type ∷ [] else []

  abbrev pub message : Choice → Prepared H → Message H
  message c p = record { buf = mpif_c_buffer cells c.base_addr; count = p.count; type = p.type }

  -- An entry point with one buffer; the two frees are those of both exits.
  unfoldable pub with_buffer : {A : Type 0} → Choice → ℕ → H → (Message H → A) → Run (Done H A)
  with_buffer c count type call = do
    p ← prepare mpi_success true c count type
    ok record {
      reply = if p.err == mpi_success then answered (call (message c p)) else refused p.err;
      created = p.created;
      freed = p.freed ++ freed_if_owned p;
    }

  -- One with two, of which each may count at the root alone.
  unfoldable pub with_buffers :
      {A : Type 0}
      → Bool
      → Choice
      → ℕ
      → H
      → Bool
      → Choice
      → ℕ
      → H
      → (Message H → Message H → A)
      → Run (Done H A)
  with_buffers send_needed send sendcount sendtype recv_needed recv recvcount recvtype call = do
    s ← prepare mpi_success send_needed send sendcount sendtype
    r ← prepare s.err recv_needed recv recvcount recvtype
    ok record {
      reply =
          if r.err == mpi_success
          then answered (call (message send s) (message recv r))
          else refused r.err;
      created = s.created ++ r.created;
      freed = s.freed ++ (r.freed ++ (freed_if_owned s ++ freed_if_owned r));
    }

  -- One with a buffer of which MPI needs to know more than a count, so that it must be contiguous.
  unfoldable pub refuse_strided : ℕ → Bool → Choice → ℕ
  refuse_strided err needed c = if needed && is_strided c then mpi_err_buffer else err

  -- Two buffers of which the first is prepared and the second has to be contiguous.
  unfoldable pub with_contiguous :
      {A : Type 0} → Choice → ℕ → H → Choice → (Message H → ℕ → A) → Run (Done H A)
  with_contiguous send sendcount sendtype recv call = do
    s ← prepare mpi_success true send sendcount sendtype
    let err = refuse_strided s.err true recv
    ok record {
      reply =
          if err == mpi_success
          then answered (call (message send s) (mpif_c_buffer cells recv.base_addr))
          else refused err;
      created = s.created;
      freed = s.freed ++ freed_if_owned s;
    }

  -- Two buffers that both have to be contiguous.
  unfoldable pub both_contiguous : {A : Type 0} → Choice → Bool → Choice → (ℕ → ℕ → A) → Reply A
  both_contiguous send recv_needed recv call =
      let err = refuse_strided (refuse_strided mpi_success true send) recv_needed recv in
      if err == mpi_success
      then answered (call (mpif_c_buffer cells send.base_addr) (mpif_c_buffer cells recv.base_addr))
      else refused err
