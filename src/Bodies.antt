-- ===== src/Bodies.antt =====
-- go/internal/httpbody/decode.go: a captured HTTP body becomes the text that is shown. A Go string is the
-- list of its bytes; letters and white space are those of ASCII. The decompressors and encoding/base64 are the parameter `Codecs`: a reader is all the
-- bytes that it gives and the error that it ends with.
pub mod Magic
pub mod Shown
pub mod Decode
pub mod Unwrap
mod Examples
use Prim.Native.String.{String}
use mathlib.Core.List.{reverse}
use quarantine_lab.Prelude.{
  ℕ, ◌+◌, ◌*◌, ◌-◌, ◌%◌, Bool, true, false, ◌&&◌, ◌||◌, not, Option, none, some, List, [], ◌∷◌,
  ◌++◌, map, ◌==◌, leb, ltb, if◌then◌else◌, length, take, drop, get_or,
}
use quarantine_lab.Prelude.Text.{codes, text_eq, to_lower, trim_space, has_char}

-- []byte, and a string as its bytes
abbrev pub Bytes : Type 0
Bytes = List ℕ

-- maxDecodedBytes
unfoldable pub max_decoded_bytes : ℕ
max_decoded_bytes = 2 * 1048576

pub record DecodeResult : Type 0 where
  pub body : Bytes
  pub encoding : Bytes
  pub decompressed : Bytes
  pub truncated : Bool
  pub error : Bytes

-- A []byte and an error, of which one counts
pub data Outcome : Type 0 where
  done : Bytes → Outcome
  failed : Bytes → Outcome

-- What a reader gives until its end, and the error there, if it is not io.EOF
pub record Stream : Type 0 where
  pub bytes : Bytes
  pub fails : Option Bytes

pub data Opened : Type 0 where
  opened : Stream → Opened
  refused : Bytes → Opened

-- The libraries: a NewReader that can fail, a NewReader that cannot, a decoder of a whole block. The
-- number is the size of the buffer.
pub record Codecs : Type 0 where
  pub gzip : Bytes → Opened
  pub zlib : Bytes → Opened
  pub zstd : Bytes → Opened
  pub xz : Bytes → Opened
  pub flate : Bytes → Stream
  pub brotli : Bytes → Stream
  pub bzip2 : Bytes → Stream
  pub lzw : Bytes → Stream
  pub lz4 : Bytes → Stream
  pub lz4_block : ℕ → Bytes → Outcome
  pub snappy : Bytes → Stream
  pub snappy_block : Bytes → Outcome
  pub base64_std : Bytes → Outcome
  pub base64_url : Bytes → Outcome

-- The bytes of `b` at a place, after a test that they are there
abbrev at : Bytes → ℕ → ℕ
at b i = get_or b i 0

is_blank : ℕ → Bool
is_blank c = c == 32 || (leb 9 c && leb c 13)

trim_left : Bytes → Bytes
unfolding is_blank
trim_left [] = []
trim_left (c ∷ s) = let rest = trim_left s in if is_blank c then rest else c ∷ s

-- strings.TrimSpace of a string as bytes, for the white space of ASCII
unfoldable pub trim_bytes : Bytes → Bytes
unfolding trim_left
trim_bytes s = reverse (trim_left (reverse (trim_left s)))

starts_with : Bytes → Bytes → Bool
starts_with b [] = true
starts_with [] (m ∷ ms) = false
starts_with (c ∷ b) (m ∷ ms) = c == m && starts_with b ms

unfoldable pub is_gzip_magic : Bytes → Bool
unfolding starts_with
is_gzip_magic b = starts_with b (0x1f ∷ 0x8b ∷ [])

unfoldable pub is_zstd_magic : Bytes → Bool
unfolding starts_with
is_zstd_magic b = starts_with b (0x28 ∷ 0xb5 ∷ 0x2f ∷ 0xfd ∷ [])

-- Go reads int(b[0])<<8|int(b[1])%31 == 0 as ((b0 << 8) | (b1 % 31)) == 0; the two numbers have no bit
-- in common, so that their `|` is their sum.
unfoldable pub is_zlib_magic : Bytes → Bool
is_zlib_magic b =
    if ltb (length b) 2 || not (at b 0 % 16 == 8) then false else at b 0 * 256 + at b 1 % 31 == 0

unfoldable pub is_compress_magic : Bytes → Bool
unfolding starts_with
is_compress_magic b = starts_with b (0x1f ∷ 0x9d ∷ [])

unfoldable pub is_bzip2_magic : Bytes → Bool
unfolding starts_with
is_bzip2_magic b = starts_with b (codes "BZh")

unfoldable pub is_xz_magic : Bytes → Bool
unfolding starts_with
is_xz_magic b = starts_with b (0xfd ∷ b'7' ∷ b'z' ∷ b'X' ∷ b'Z' ∷ 0 ∷ [])

unfoldable pub is_lz4_frame_magic : Bytes → Bool
unfolding starts_with
is_lz4_frame_magic b = starts_with b (0x04 ∷ 0x22 ∷ 0x4d ∷ 0x18 ∷ [])

unfoldable pub is_snappy_framed_magic : Bytes → Bool
unfolding starts_with
is_snappy_framed_magic b = starts_with b (0xff ∷ 0x06 ∷ 0 ∷ 0 ∷ [])

-- sniffContentEncoding
unfoldable pub sniff_content_encoding : Bytes → Bytes
unfolding is_gzip_magic is_zstd_magic is_compress_magic is_bzip2_magic is_xz_magic
    is_lz4_frame_magic is_snappy_framed_magic is_zlib_magic
sniff_content_encoding b =
    if is_gzip_magic b
    then codes "gzip"
    else if is_zstd_magic b
    then codes "zstd"
    else if is_compress_magic b
    then codes "compress"
    else if is_bzip2_magic b
    then codes "bzip2"
    else if is_xz_magic b
    then codes "xz"
    else if is_lz4_frame_magic b
    then codes "lz4"
    else if is_snappy_framed_magic b
    then codes "snappy"
    else if is_zlib_magic b
    then codes "deflate"
    else []
