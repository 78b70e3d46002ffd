-- ===== src/Bodies/Unwrap.antt =====
-- Decode undoes the codings that a header lists.
use quarantine_lab.Prelude.{◌≤◌, ◌≡◌, true, false, none, List, [], ◌∷◌, length, drop}
use quarantine_lab.Prelude.Text.{codes}
use quarantine_lab.Bodies.{
  Bytes, max_decoded_bytes, done, Stream, opened, Codecs, is_compress_magic, is_snappy_framed_magic,
}

-- The codings that decompressOnce knows
pub data Coding : Type 0 where
  gzip deflate br zstd compress bzip2 lz4 xz snappy : Coding

abbrev pub name : Coding → Bytes
name gzip = codes "gzip"
name deflate = codes "deflate"
name br = codes "br"
name zstd = codes "zstd"
name compress = codes "compress"
name bzip2 = codes "bzip2"
name lz4 = codes "lz4"
name xz = codes "xz"
name snappy = codes "snappy"

-- A reader that gives some bytes and ends
abbrev pub gives : Bytes → Stream
gives x = record { bytes = x; fails = none }

-- Encoders whose output the libraries read back
pub record Encoders (k : Codecs) : Type 0 where
  pub wrap : Coding → Bytes → Bytes
  pub gzip_reads : (x : Bytes) → k.gzip (wrap gzip x) ≡ opened (gives x)
  pub zlib_reads : (x : Bytes) → k.zlib (wrap deflate x) ≡ opened (gives x)
  pub brotli_reads : (x : Bytes) → k.brotli (wrap br x) ≡ gives x
  pub zstd_reads : (x : Bytes) → k.zstd (wrap zstd x) ≡ opened (gives x)
  pub compress_marks : (x : Bytes) → is_compress_magic (wrap compress x) ≡ true
  pub compress_has : (x : Bytes) → 3 ≤ length (wrap compress x)
  pub lzw_reads : (x : Bytes) → k.lzw (drop 3 (wrap compress x)) ≡ gives x
  pub bzip2_reads : (x : Bytes) → k.bzip2 (wrap bzip2 x) ≡ gives x
  pub lz4_reads : (x : Bytes) → k.lz4 (wrap lz4 x) ≡ gives x
  pub xz_reads : (x : Bytes) → k.xz (wrap xz x) ≡ opened (gives x)
  pub snappy_plain : (x : Bytes) → is_snappy_framed_magic (wrap snappy x) ≡ false
  pub snappy_reads : (x : Bytes) → k.snappy_block (wrap snappy x) ≡ done x

module _ (k : Codecs) (w : Encoders k) where
  -- A body in the codings of a list, the outermost one first
  unfoldable pub wrap_all : List Coding → Bytes → Bytes
  wrap_all [] x = x
  wrap_all (c ∷ cs) x = w.wrap c (wrap_all cs x)

  -- No layer below the outermost coding is longer than what is decoded at most.
  unfoldable pub Fits : List Coding → Bytes → Type 0
  unfolding wrap_all
  Fits [] x = Unit
  Fits (c ∷ cs) x = (length (wrap_all cs x) ≤ max_decoded_bytes) × Fits cs x
