-- ===== src/Sentinels/Tests.antt =====
-- The sentinels at cells of their own.
use mpif.Prelude.{◌≡◌, arith}
use mpif.Sentinels.{
  Cells, mpif_c_cbuffer, mpif_c_buffer, mpif_f_buffer_addr, mpif_c_status, mpif_c_weights,
  mpif_c_errcodes,
}
use mpif.Sentinels.Translate.{
  Translated, AreDistinct, buffers, statuses, weights, errcodes, translators-Translated,
  f_buffer_addr-c_buffer,
}

abbrev cells : Cells
cells = record {
  bottom = 1000;
  in_place = 1004;
  buffer_automatic = 1008;
  argv_null = 1012;
  argvs_null = 1016;
  errcodes_ignore = 1020;
  unweighted = 1024;
  weights_empty = 1028;
  status_ignore = 1032;
  statuses_ignore = 1064;
  f08_status_ignore = 1096;
  f08_statuses_ignore = 1128;
}

buffers_distinct : AreDistinct (buffers cells)
buffers_distinct = (
  ((λ e. omega (arith, e)), ((λ e. omega (arith, e)), tt)),
  (((λ e. omega (arith, e)), tt), (tt, tt)),
)

statuses_distinct : AreDistinct (statuses cells)
statuses_distinct = (
  ((λ e. omega (arith, e)), ((λ e. omega (arith, e)), ((λ e. omega (arith, e)), tt))),
  (
    ((λ e. omega (arith, e)), ((λ e. omega (arith, e)), tt)),
    (((λ e. omega (arith, e)), tt), (tt, tt)),
  ),
)

weights_distinct : AreDistinct (weights cells)
weights_distinct = (((λ e. omega (arith, e)), tt), (tt, tt))

translators-Translated_test :
    Translated (buffers cells) (mpif_c_cbuffer cells)
    × Translated (buffers cells) (mpif_c_buffer cells)
    × Translated (statuses cells) (mpif_c_status cells)
    × Translated (weights cells) (mpif_c_weights cells)
    × Translated (errcodes cells) (mpif_c_errcodes cells)
translators-Translated_test =
    translators-Translated cells buffers_distinct statuses_distinct weights_distinct

f_buffer_addr-c_buffer_test : mpif_f_buffer_addr cells (mpif_c_buffer cells 1008) ≡ 1008
f_buffer_addr-c_buffer_test =
    f_buffer_addr-c_buffer cells 1008 (λ e. omega (arith, e)) (λ e. omega (arith, e))
      (λ e. omega (arith, e))
