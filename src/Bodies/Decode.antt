-- ===== src/Bodies/Decode.antt =====
-- go/internal/httpbody/decode.go: the codings of a header, one decompression, and Decode.
use quarantine_lab.Prelude.{
  ℕ, ◌+◌, Bool, true, false, ◌&&◌, ◌||◌, not, Option, none, some, List, [], ◌∷◌, ◌++◌, ◌==◌, leb,
  ltb, if◌then◌else◌, length, take, drop, ◌%◌,
}
use mathlib.Core.List.{reverse}
use quarantine_lab.Prelude.Text.{among_texts, codes, text_eq, to_lower, has_char}
use quarantine_lab.Bodies.{
  Bytes, trim_bytes, max_decoded_bytes, DecodeResult, Outcome, done, failed, Stream, Opened, opened,
  refused, Codecs, sniff_content_encoding, is_compress_magic, is_snappy_framed_magic,
}
use quarantine_lab.Bodies.Shown.{body_to_bytes, text_result}

-- strings.Split by one byte
unfoldable pub split_at_char : ℕ → Bytes → List Bytes
split_at_char a [] = [] ∷ []
split_at_char a (c ∷ s) =
    let rest = split_at_char a s in
    if c == a then [] ∷ rest else elim rest [ [] ↦ (c ∷ []) ∷ [] | p ∷ ps ↦ (c ∷ p) ∷ ps ]

-- strings.Split(e, ";")[0]
unfoldable pub before_char : ℕ → Bytes → Bytes
before_char a [] = []
before_char a (c ∷ s) = if c == a then [] else c ∷ before_char a s

-- The switch on the name of a coding
unfoldable pub coding_of : Bytes → Option Bytes
unfolding among_texts
coding_of e =
    if among_texts e ([] ∷ codes "identity" ∷ [])
    then none
    else if among_texts e (codes "gzip" ∷ codes "x-gzip" ∷ [])
    then some (codes "gzip")
    else if among_texts e (codes "deflate" ∷ [])
    then some (codes "deflate")
    else if among_texts e (codes "br" ∷ codes "brotli" ∷ [])
    then some (codes "br")
    else if among_texts e (codes "zstd" ∷ [])
    then some (codes "zstd")
    else if among_texts e (codes "compress" ∷ codes "x-compress" ∷ [])
    then some (codes "compress")
    else if among_texts e (codes "bzip2" ∷ codes "bz2" ∷ codes "x-bzip2" ∷ [])
    then some (codes "bzip2")
    else if among_texts e (codes "lz4" ∷ codes "lz4frame" ∷ codes "x-lz4" ∷ [])
    then some (codes "lz4")
    else if among_texts e (codes "xz" ∷ codes "lzma" ∷ codes "x-xz" ∷ [])
    then some (codes "xz")
    else if among_texts e (codes "snappy" ∷ codes "x-snappy-framed" ∷ [])
    then some (codes "snappy")
    else none

codings_of : List Bytes → List Bytes
unfolding coding_of before_char to_lower trim_bytes
codings_of [] = []
codings_of (p ∷ ps) =
    let rest = codings_of ps in
    elim (coding_of (trim_bytes (before_char b';' (to_lower (trim_bytes p))))) [
      | none ↦ rest
      | some e ↦ e ∷ rest
    ]

-- parseContentEncodings
unfoldable pub parse_content_encodings : Bytes → List Bytes
unfolding codings_of split_at_char
parse_content_encodings h = codings_of (split_at_char b',' h)

-- NeedsDecode
unfoldable pub needs_decode : Bytes → Bool
unfolding parse_content_encodings
needs_decode h = not (length (parse_content_encodings h) == 0)

-- readLimitedAllowPartial before its test, on at most maxDecodedBytes+1 bytes: the bytes, and the error
-- of the reader if the limit is not met before
unfoldable pub read_limited : Stream → Bytes × Option Bytes
read_limited s = (
  take (max_decoded_bytes + 1) s.bytes,
  if ltb max_decoded_bytes (length s.bytes) then none else s.fails,
)

-- readLimitedAllowPartial
unfoldable pub read_limited_allow_partial : Stream → Outcome
unfolding read_limited
read_limited_allow_partial s =
    let r = read_limited s in
    if ltb 0 (length r.0) then done r.0 else elim r.1 [ none ↦ done r.0 | some e ↦ failed e ]

unfoldable pub read_opened : Opened → Outcome
unfolding read_limited_allow_partial
read_opened (opened s) = read_limited_allow_partial s
read_opened (refused e) = failed e

-- The tests of decodeASCIIBase64 on a byte
base64_char : ℕ → Bool
base64_char c =
    ((leb b'A' c && leb c b'Z') || ((leb b'a' c && leb c b'z') || (leb b'0' c && leb c b'9')))
    || ((c == b'+' || (c == b'/' || (c == b'=' || (c == b'-' || c == b'_'))))
        || (c == 10 || c == 13))

all_base64 : Bytes → Bool
unfolding base64_char
all_base64 [] = true
all_base64 (c ∷ s) = base64_char c && all_base64 s

without_newlines : Bytes → Bytes
without_newlines [] = []
without_newlines (c ∷ s) =
    let rest = without_newlines s in if c == 10 || c == 13 then rest else c ∷ rest

padded : Bytes → Bytes
padded s =
    if length s % 4 == 2 then s ++ codes "==" else if length s % 4 == 3 then s ++ codes "=" else s

-- decodeASCIIBase64
unfoldable pub decode_ascii_base64 : Codecs → Bytes → Option Bytes
unfolding all_base64 without_newlines padded trim_bytes has_char
decode_ascii_base64 k input =
    let s = trim_bytes input in
    let plain = padded (without_newlines s) in
    let out =
      if has_char b'-' s || has_char b'_' s then k.base64_url plain else k.base64_std plain in
    if ltb (length input) 16
    then none
    else if text_eq s []
    then none
    else if not (all_base64 s)
    then none
    else elim out [ failed _ ↦ none | done b ↦ if length b == 0 then none else some b ]

-- decompressDeflate
unfoldable pub decompress_deflate : Codecs → Bytes → Outcome
unfolding read_opened read_limited_allow_partial decode_ascii_base64
decompress_deflate k input = elim (read_opened (k.zlib input)) [
  | done out ↦ done out
  | failed _ ↦ elim (read_limited_allow_partial (k.flate input)) [
    | done out ↦ done out
    | failed e ↦ elim (decode_ascii_base64 k input) [
      | none ↦ failed e
      | some b ↦ elim (read_limited_allow_partial (k.flate b)) [
        | done out ↦ done out
        | failed _ ↦ elim (read_opened (k.zlib b)) [ done out ↦ done out | failed _ ↦ failed e ]
      ]
    ]
  ]
]

-- decompressCompress
unfoldable pub decompress_compress : Codecs → Bytes → Outcome
unfolding is_compress_magic read_limited_allow_partial
decompress_compress k input =
    if not (is_compress_magic input) || ltb (length input) 3
    then failed (codes "compress: bad magic")
    else read_limited_allow_partial (k.lzw (drop 3 input))

-- out[:maxDecodedBytes] of a longer one
unfoldable pub capped : Bytes → Bytes
capped out = if ltb max_decoded_bytes (length out) then take max_decoded_bytes out else out

-- decompressLZ4
unfoldable pub decompress_lz4 : Codecs → Bytes → Outcome
unfolding read_limited_allow_partial capped
decompress_lz4 k input = elim (read_limited_allow_partial (k.lz4 input)) [
  | done out ↦ done out
  | failed e ↦ elim (k.lz4_block (max_decoded_bytes + 1) input) [
    | failed _ ↦ failed e
    | done out ↦ done (capped out)
  ]
]

-- decompressSnappy
unfoldable pub decompress_snappy : Codecs → Bytes → Outcome
unfolding is_snappy_framed_magic read_limited_allow_partial capped
decompress_snappy k input =
    if is_snappy_framed_magic input
    then read_limited_allow_partial (k.snappy input)
    else elim (k.snappy_block input) [
      | failed _ ↦ read_limited_allow_partial (k.snappy input)
      | done out ↦ done (capped out)
    ]

-- decompressOnce
unfoldable pub decompress_once : Codecs → Bytes → Bytes → Outcome
unfolding read_opened read_limited_allow_partial decompress_deflate decompress_compress
    decompress_lz4 decompress_snappy
decompress_once k input enc =
    if text_eq enc (codes "gzip")
    then read_opened (k.gzip input)
    else if text_eq enc (codes "deflate")
    then decompress_deflate k input
    else if text_eq enc (codes "br")
    then read_limited_allow_partial (k.brotli input)
    else if text_eq enc (codes "zstd")
    then read_opened (k.zstd input)
    else if text_eq enc (codes "compress")
    then decompress_compress k input
    else if text_eq enc (codes "bzip2")
    then read_limited_allow_partial (k.bzip2 input)
    else if text_eq enc (codes "lz4")
    then decompress_lz4 k input
    else if text_eq enc (codes "xz")
    then read_opened (k.xz input)
    else if text_eq enc (codes "snappy")
    then decompress_snappy k input
    else failed (codes "unsupported content-encoding \"" ++ (enc ++ codes "\""))

-- strings.Join(applied, ",")
unfoldable pub join_applied : List Bytes → Bytes
join_applied [] = []
join_applied (a ∷ []) = a
join_applied (a ∷ (b ∷ as')) = a ++ (codes "," ++ join_applied (b ∷ as'))

-- The magic of a body that its labelled coding does not fit
unfoldable pub sniffed_instead : Codecs → Bytes → Bytes → Option (Bytes × Bytes)
unfolding sniff_content_encoding decompress_once
sniffed_instead k decoded enc =
    let snif = sniff_content_encoding decoded in
    if not (text_eq snif []) && not (text_eq snif enc)
    then elim (decompress_once k decoded snif) [ failed _ ↦ none | done alt ↦ some (snif, alt) ]
    else none

-- The loop of Decode over the codings, the last one of the header first
unfoldable pub decode_loop :
    Codecs → Bytes → Bytes → Bytes → List Bytes → Bytes → List Bytes → DecodeResult
unfolding decompress_once sniffed_instead text_result join_applied
decode_loop k body_encoding body raw [] decoded applied = text_result decoded (join_applied applied)
decode_loop k body_encoding body raw (enc ∷ encs) decoded applied =
    elim (decompress_once k decoded enc) [
      | done next ↦ decode_loop k body_encoding body raw encs next (applied ++ (enc ∷ []))
      | failed derr ↦
          if length applied == 0
          then elim (sniffed_instead k decoded enc) [
            | none ↦ text_result raw []
            | some alt ↦ decode_loop k body_encoding body raw encs alt.1 (alt.0 ∷ [])
          ]
          else record {
            body = body;
            encoding = body_encoding;
            decompressed = join_applied applied;
            truncated = false;
            error = codes "decompress " ++ (enc ++ (codes ": " ++ derr));
          }
    ]

-- The encoding of a captured body, in small letters
unfoldable pub encoding_name : Bytes → Bytes
unfolding to_lower trim_bytes
encoding_name body_encoding =
    let named = to_lower (trim_bytes body_encoding) in
    if text_eq named [] then codes "utf-8" else named

-- Decode
unfoldable pub decode : Codecs → Bytes → Bytes → Bytes → DecodeResult
unfolding encoding_name body_to_bytes parse_content_encodings sniff_content_encoding decode_loop
    text_result
decode k body_encoding content_encoding body =
    let encoding = encoding_name body_encoding in
    elim (body_to_bytes k encoding body) [
      | failed e ↦ record {
        body = body;
        encoding = encoding;
        decompressed = [];
        truncated = false;
        error = e;
      }
      | done raw ↦
          let encs = parse_content_encodings content_encoding in
          let snif = sniff_content_encoding raw in
          if not (length encs == 0)
          then decode_loop k encoding body raw (reverse encs) raw []
          else if not (text_eq snif [])
          then decode_loop k encoding body raw (snif ∷ []) raw []
          else text_result raw []
    ]
