-- ===== src/Strings.antt =====
-- src/mpif_strings.c: strings between Fortran (a length, padded with blanks) and C (terminated).
-- A pointer is the list of the bytes from it to the end of its object; a read or a write outside
-- is a fault. The two counts walk an array of unknown size on fuel, one more than its bytes.
pub mod Length
pub mod Duplicate
pub mod Copy
pub mod Count
mod Tests
use mpif.Prelude.{
  ℕ, zero, suc, ◌+◌, ◌-◌, ◌*◌, ◌≡◌, Option, none, some, Bool, true, false, ◌&&◌, List, [], ◌∷◌,
  arith, ltb, leb, ◌==◌, if◌then◌else◌, length, drop,
}
use mpif.Machine.{
  Run, ok, fault, aborted, out_of_fuel, ◌>>=◌, Bytes, load, store, memcpy, memset, Allocator,
  or_abort,
}

abbrev pub blank : ℕ
blank = b' '

-- the loop of `mpif_fstrlen`, at `n`
unfoldable pub mpif_fstrlen : Bytes → ℕ → Run ℕ
mpif_fstrlen str zero = ok 0
mpif_fstrlen str (suc n) =
    let rest = mpif_fstrlen str n in do c ← load str n; if c == blank then rest else ok (suc n)

unfoldable pub mpif_strdup_f2c : Allocator → Bytes → ℕ → Run Bytes
mpif_strdup_f2c a str str_length = do
  len ← mpif_fstrlen str str_length
  res ← or_abort (a.malloc (len + 1))
  res ← memcpy res 0 str 0 len
  store res len 0

-- `while (begin < end && str[begin] == ' ') ++begin;` with `n` the rounds that are left
unfoldable pub skip_blanks : Bytes → ℕ → ℕ → Run ℕ
skip_blanks str begin zero = ok begin
skip_blanks str begin (suc n) =
    let rest = skip_blanks str (begin + 1) n in
    do c ← load str begin; if c == blank then rest else ok begin

unfoldable pub mpif_strdup_f2c_trim : Allocator → Bytes → ℕ → Run Bytes
mpif_strdup_f2c_trim a str str_length = do
  end ← mpif_fstrlen str str_length
  begin ← skip_blanks str 0 end
  let len = end - begin
  res ← or_abort (a.malloc (len + 1))
  res ← memcpy res 0 str begin len
  store res len 0

unfoldable pub mpif_strcpy_c2f : Bytes → Bytes → ℕ → ℕ → Run Bytes
mpif_strcpy_c2f dest src dest_length src_length =
    if leb dest_length src_length then memcpy dest 0 src 0 dest_length else do
      dest ← memcpy dest 0 src 0 src_length
      memset dest src_length blank (dest_length - src_length)

-- the loop of `mpif_fcount`, at `n`
fcount_loop : ℕ → ℕ → Bytes → ℕ → Run ℕ
fcount_loop zero n strarr str_length = out_of_fuel
fcount_loop (suc fuel) n strarr str_length =
    let rest = fcount_loop fuel (n + 1) strarr str_length in
    do len ← mpif_fstrlen (drop (n * str_length) strarr) str_length; if len == 0 then ok n else rest

unfoldable pub mpif_fcount : Bytes → ℕ → Run ℕ
unfolding fcount_loop
mpif_fcount strarr str_length = fcount_loop (length strarr + 1) 0 strarr str_length

-- the loop of `mpif_fcount2d`, at `n`
fcount2d_loop : ℕ → ℕ → Bytes → ℕ → ℕ → ℕ → Run ℕ
fcount2d_loop zero n strarr strarr_size strarr_index str_length = out_of_fuel
fcount2d_loop (suc fuel) n strarr strarr_size strarr_index str_length =
    let rest = fcount2d_loop fuel (n + 1) strarr strarr_size strarr_index str_length in
    do
      len ←
          mpif_fstrlen (drop (strarr_index * str_length + n * str_length * strarr_size) strarr)
            str_length
      if len == 0 then ok n else rest

unfoldable pub mpif_fcount2d : Bytes → ℕ → ℕ → ℕ → Run ℕ
unfolding fcount2d_loop
mpif_fcount2d strarr strarr_size strarr_index str_length =
    fcount2d_loop (length strarr + 1) 0 strarr strarr_size strarr_index str_length
