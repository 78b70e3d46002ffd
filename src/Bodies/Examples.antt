-- ===== src/Bodies/Examples.antt =====
-- Codecs that add and take away a mark, and a body in two codings.
use quarantine_lab.Prelude.{◌≡◌, refl, true, false, [], ◌∷◌, drop, arith}
use quarantine_lab.Prelude.Text.{codes, text_eq}
use quarantine_lab.Bodies.{
  Bytes, Codecs, opened, done, sniff_content_encoding, is_compress_magic, is_snappy_framed_magic,
}
use quarantine_lab.Bodies.Magic.{sniff_content_encoding-deflate}
use quarantine_lab.Bodies.Unwrap.{gzip, gives, Encoders}

-- A zlib stream of the default level begins so.
sniff_content_encoding-deflate_example :
    text_eq (sniff_content_encoding (0x78 ∷ 0x9c ∷ [])) (codes "deflate") ≡ false
sniff_content_encoding-deflate_example = sniff_content_encoding-deflate (0x78 ∷ 0x9c ∷ [])

abbrev marked : Codecs
marked = record {
  gzip = λ x. opened (gives (drop 3 x));
  zlib = λ x. opened (gives (drop 3 x));
  zstd = λ x. opened (gives (drop 3 x));
  xz = λ x. opened (gives (drop 3 x));
  flate = λ x. gives (drop 3 x);
  brotli = λ x. gives (drop 3 x);
  bzip2 = λ x. gives (drop 3 x);
  lzw = λ x. gives x;
  lz4 = λ x. gives (drop 3 x);
  lz4_block = λ n x. done x;
  snappy = λ x. gives x;
  snappy_block = λ x. done (drop 3 x);
  base64_std = λ x. done x;
  base64_url = λ x. done x;
}

marks : (x : Bytes) → is_compress_magic (0x1f ∷ 0x9d ∷ 0x90 ∷ x) ≡ true
unfolding is_compress_magic
marks x = refl

plain : (x : Bytes) → is_snappy_framed_magic (0x1f ∷ 0x9d ∷ 0x90 ∷ x) ≡ false
unfolding is_snappy_framed_magic
plain x = refl

abbrev encoders : Encoders marked
encoders = record {
  wrap = λ c x. 0x1f ∷ 0x9d ∷ 0x90 ∷ x;
  gzip_reads = λ x. refl;
  zlib_reads = λ x. refl;
  brotli_reads = λ x. refl;
  zstd_reads = λ x. refl;
  compress_marks = λ x. marks x;
  compress_has = λ x. omega arith;
  lzw_reads = λ x. refl;
  bzip2_reads = λ x. refl;
  lz4_reads = λ x. refl;
  xz_reads = λ x. refl;
  snappy_plain = λ x. plain x;
  snappy_reads = λ x. refl;
}

abbrev page : Bytes
page = codes "<p>"

abbrev wire : Bytes
wire = 0x1f ∷ 0x9d ∷ 0x90 ∷ 0x1f ∷ 0x9d ∷ 0x90 ∷ page
