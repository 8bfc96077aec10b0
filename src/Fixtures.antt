-- ===== src/Fixtures.antt =====
-- What the tests of several modules share: the cells of include/mpif_sentinels.h at some addresses,
-- and an allocator that always has room.
use mpif.Prelude.{ℕ, ◌≡◌, some, arith, length, replicate, length-replicate}
use mpif.Machine.{Bytes, Allocator}
use mpif.Sentinels.{Cells}

abbrev pub cells : Cells
cells = record {
  bottom = 100;
  in_place = 101;
  buffer_automatic = 102;
  argv_null = 103;
  argvs_null = 104;
  errcodes_ignore = 105;
  unweighted = 106;
  weights_empty = 107;
  status_ignore = 108;
  statuses_ignore = 109;
  f08_status_ignore = 110;
  f08_statuses_ignore = 111;
}

pub roomy_lengths : (n : ℕ) (b : Bytes) → some (replicate n 7) ≡ some b → length b ≡ n
roomy_lengths n b e = ground (arith, length-replicate n (let k : ℕ = 7 in k))

-- Its buffers are filled with 7.
abbrev pub roomy : Allocator
roomy = record { malloc = λ n. some (replicate n 7); length-malloc = roomy_lengths }
