-- ===== src/Bodies/Shown.antt =====
-- go/internal/httpbody/decode.go: what a body is as bytes, and which bytes are shown as text.
use quarantine_lab.Prelude.{
  ℕ, ◌+◌, ◌*◌, ◌-◌, Bool, true, false, ◌&&◌, ◌||◌, Option, none, some, List, [], ◌∷◌, ◌==◌, leb,
  ltb, if◌then◌else◌, length, take,
}
use quarantine_lab.Prelude.Text.{codes, text_eq}
use quarantine_lab.Bodies.{
  Bytes, trim_bytes, max_decoded_bytes, DecodeResult, Outcome, done, Codecs,
}

-- The loop over the runes of a string that is to be Latin-1. A rune up to 255 has one byte, or two of
-- which the first is 0xC2 or 0xC3; a byte that is no UTF-8 reads as U+FFFD.
unfoldable pub latin1_runes : Bytes → Option Bytes
latin1_runes [] = some []
latin1_runes (b ∷ []) = if ltb b 0x80 then some (b ∷ []) else none
latin1_runes (b ∷ c ∷ bs) =
    let rest = latin1_runes (c ∷ bs) in
    let tail = latin1_runes bs in
    if ltb b 0x80
    then elim rest [ none ↦ none | some r ↦ some (b ∷ r) ]
    else if (b == 0xc2 || b == 0xc3) && (leb 0x80 c && leb c 0xbf)
    then elim tail [ none ↦ none | some r ↦ some (((b - 0xc0) * 64 + (c - 0x80)) ∷ r) ]
    else none

-- bodyToBytes
unfoldable pub body_to_bytes : Codecs → Bytes → Bytes → Outcome
unfolding latin1_runes trim_bytes
body_to_bytes k encoding body =
    if text_eq encoding (codes "base64")
    then k.base64_std (trim_bytes body)
    else if text_eq encoding (codes "latin-1")
        || (text_eq encoding (codes "iso-8859-1") || text_eq encoding (codes "latin1"))
    then elim (latin1_runes body) [ some out ↦ done out | none ↦ done body ]
    else done body

-- The ranges of the bytes that must follow a first byte in UTF-8
follow : ℕ → Option (List (ℕ × ℕ))
follow b =
    if ltb b 0x80
    then some []
    else if leb 0xc2 b && leb b 0xdf
    then some ((0x80, 0xbf) ∷ [])
    else if b == 0xe0
    then some ((0xa0, 0xbf) ∷ (0x80, 0xbf) ∷ [])
    else if b == 0xed
    then some ((0x80, 0x9f) ∷ (0x80, 0xbf) ∷ [])
    else if leb 0xe1 b && leb b 0xef
    then some ((0x80, 0xbf) ∷ (0x80, 0xbf) ∷ [])
    else if b == 0xf0
    then some ((0x90, 0xbf) ∷ (0x80, 0xbf) ∷ (0x80, 0xbf) ∷ [])
    else if leb 0xf1 b && leb b 0xf3
    then some ((0x80, 0xbf) ∷ (0x80, 0xbf) ∷ (0x80, 0xbf) ∷ [])
    else if b == 0xf4
    then some ((0x80, 0x8f) ∷ (0x80, 0xbf) ∷ (0x80, 0xbf) ∷ [])
    else none

valid_from : List (ℕ × ℕ) → Bytes → Bool
unfolding follow
valid_from [] [] = true
valid_from (r ∷ rs) [] = false
valid_from [] (b ∷ bs) = elim (follow b) [ none ↦ false | some rs ↦ valid_from rs bs ]
valid_from (r ∷ rs) (b ∷ bs) = (leb r.0 b && leb b r.1) && valid_from rs bs

-- utf8.Valid
unfoldable pub utf8_valid : Bytes → Bool
unfolding valid_from
utf8_valid b = valid_from [] b

-- The count of control bytes in looksMostlyText
unfoldable pub bad_bytes : Bytes → ℕ
bad_bytes [] = 0
bad_bytes (c ∷ b) =
    let bad = bad_bytes b in if ltb c 9 || (ltb 13 c && ltb c 32) then bad + 1 else bad

-- looksMostlyText; the quotient of the two counts is below 0.05 where twenty times the one is below the
-- other.
unfoldable pub looks_mostly_text : Bytes → Bool
unfolding bad_bytes
looks_mostly_text b = length b == 0 || ltb (bad_bytes b * 20) (length b)

-- textResult
unfoldable pub text_result : Bytes → Bytes → DecodeResult
unfolding utf8_valid looks_mostly_text
text_result raw decompressed =
    let truncated = ltb max_decoded_bytes (length raw) in
    let shown = if truncated then take max_decoded_bytes raw else raw in
    record {
      body = shown;
      encoding =
          if utf8_valid shown && looks_mostly_text shown then codes "utf-8" else codes "latin-1";
      decompressed = decompressed;
      truncated = truncated;
      error = [];
    }
