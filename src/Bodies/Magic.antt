-- ===== src/Bodies/Magic.antt =====
-- sniffContentEncoding: what it can answer.
use quarantine_lab.Prelude.{◌≡◌, refl, Bool, true, false, [], ◌∷◌, arith, if◌then◌else◌}
use quarantine_lab.Prelude.Text.{codes, text_eq}
use quarantine_lab.Bodies.{
  Bytes, is_gzip_magic, is_zstd_magic, is_compress_magic, is_bzip2_magic, is_xz_magic,
  is_lz4_frame_magic, is_snappy_framed_magic, is_zlib_magic, sniff_content_encoding,
}

-- isZlibMagic says no to every body, that of a zlib stream too. The operators of Go bind so that its
-- last test asks whether the first two bytes are zero, after the first was found to end in 8.
pub is_zlib_magic-never : (b : Bytes) → is_zlib_magic b ≡ false
unfolding is_zlib_magic
is_zlib_magic-never [] = refl
is_zlib_magic-never (c ∷ []) = refl
is_zlib_magic-never (c ∷ d ∷ b) = ground arith

-- sniffContentEncoding never answers that a body is deflated: a zlib stream without a header is not
-- recognized by its first bytes.
pub sniff_content_encoding-deflate :
    (b : Bytes) → text_eq (sniff_content_encoding b) (codes "deflate") ≡ false
unfolding sniff_content_encoding
sniff_content_encoding-deflate b = rw (is_zlib_magic-never b) (
    either _ _ (is_gzip_magic b) refl (
      either _ _ (is_zstd_magic b) refl (
        either _ _ (is_compress_magic b) refl (
          either _ _ (is_bzip2_magic b) refl (
            either _ _ (is_xz_magic b) refl (
              either _ _ (is_lz4_frame_magic b) refl
                (either (codes "snappy") [] (is_snappy_framed_magic b) refl refl)))))))
  where
    either :
        (x y : Bytes) (c : Bool)
        → text_eq x (codes "deflate") ≡ false
        → text_eq y (codes "deflate") ≡ false
        → text_eq (if c then x else y) (codes "deflate") ≡ false
    either x y true h k = h
    either x y false h k = k
