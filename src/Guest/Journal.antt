-- ===== src/Guest/Journal.antt =====
-- go/internal/agent/collectors/usn_windows.go, and fileRefFromRecord, parentRefFromRecord and leUint64 of
-- usn_path_windows.go: the journal records that Windows puts into a buffer. UTF16ToString, time.Time's
-- Format and the order in which Go ranges over usnReasonLabels are arguments.
pub mod Bounds
mod Examples
use Prim.Native.String.{String}
use quarantine_lab.Prelude.{
  ℕ, zero, suc, ◌+◌, ◌-◌, ◌*◌, ◌/◌, ◌%◌, ◌^◌, Bool, true, false, ◌&&◌, ◌||◌, not, Option, none,
  some, List, [], ◌∷◌, ◌++◌, ◌==◌, ltb, leb, if◌then◌else◌, length,
}
use quarantine_lab.Prelude.Bytes.{slice, le_value}
use quarantine_lab.Prelude.Text.{Text, codes, text_eq, to_lower, to_upper, trim_space, has_prefix}
use quarantine_lab.Guest.Usn.{Event, unset}

-- What code comes to that reads slices in a loop.
pub data Outcome (A : Type 0) : Type 0 where
  returned : A → Outcome A
  -- slice bounds out of range
  panicked : Outcome A
  out_of_fuel : Outcome A

infixl 5 ◌>>=◌
abbrev pub ◌>>=◌ : {A B : Type 0} → Outcome A → (A → Outcome B) → Outcome B
returned a >>= f = f a
panicked >>= f = panicked
out_of_fuel >>= f = out_of_fuel

-- buf[a:b]
unfoldable pub sliced : List ℕ → ℕ → ℕ → Outcome (List ℕ)
sliced buf a b = if leb a b && leb b (length buf) then returned (slice a b buf) else panicked

-- The offsets of a record's fields
pub record FieldOffsets : Type 0 where
  pub usn_off : ℕ
  pub reason_off : ℕ
  pub name_len_off : ℕ
  pub name_off_off : ℕ

-- usnRecordFieldOffsets
unfoldable pub usn_record_field_offsets : ℕ → Option FieldOffsets
usn_record_field_offsets major =
    if major == 2
    then some (record { usn_off = 24; reason_off = 40; name_len_off = 56; name_off_off = 58 })
    else if major == 3 || major == 4
    then some (record { usn_off = 40; reason_off = 56; name_len_off = 72; name_off_off = 74 })
    else none

abbrev pub hex_digit : ℕ → ℕ
hex_digit d = if ltb d 10 then d + b'0' else d - 10 + b'a'

-- `n` hexadecimal digits of a word, in front of `rest`
abbrev pub hex_digits : ℕ → ℕ → Text → Text
hex_digits zero x rest = rest
hex_digits (suc n) x rest = hex_digits n (x / 16) (hex_digit (x % 16) ∷ rest)

-- fmt.Sprintf("0x%016x", x) and fmt.Sprintf("0x%08x", x) of words that fit
abbrev pub hex16 : ℕ → Text
hex16 x = codes "0x" ++ hex_digits 16 x []

abbrev pub hex8 : ℕ → Text
hex8 x = codes "0x" ++ hex_digits 8 x []

-- strings.ToUpper(hex.EncodeToString(bs))
abbrev pub hex_bytes : List ℕ → Text
hex_bytes [] = []
hex_bytes (b ∷ bs) = to_upper (hex_digits 2 b []) ++ hex_bytes bs

-- looksLikeUsnFileName
unfoldable pub looks_like_usn_file_name : Text → Bool
unfolding trim_space to_lower has_prefix
looks_like_usn_file_name raw =
    let s = trim_space raw in
    let l = to_lower s in
    if text_eq s []
    then false
    else if text_eq l (codes "0x00000000")
        || (text_eq l (codes "reason")
            || (text_eq l (codes "time stamp")
                || (text_eq l (codes "file name") || text_eq l (codes "usn"))))
    then false
    else not (has_prefix l (codes "source info"))

-- binary.LittleEndian.Uint16 of each pair of bytes; a last single byte is left out.
abbrev pub words : List ℕ → List ℕ
words [] = []
words (a ∷ []) = []
words (a ∷ b ∷ bs) = (a + 256 * b) ∷ words bs

-- fileRefFromRecord
unfoldable pub file_ref_from_record : List ℕ → ℕ → ℕ → Outcome Text
unfolding sliced
file_ref_from_record buf offset major =
    if major == 2
    then (sliced buf (offset + 8) (offset + 16) >>= λ bs. returned (hex16 (le_value bs)))
    else if major == 3 || major == 4
    then (if ltb (length buf) (offset + 24)
        then returned []
        else (sliced buf (offset + 8) (offset + 24) >>= λ bs.
            returned (codes "0x" ++ hex_bytes bs)))
    else returned []

-- parentRefFromRecord
unfoldable pub parent_ref_from_record : List ℕ → ℕ → ℕ → Outcome Text
unfolding sliced
parent_ref_from_record buf offset major =
    if major == 2
    then (sliced buf (offset + 16) (offset + 24) >>= λ bs. returned (hex16 (le_value bs)))
    else if major == 3 || major == 4
    then (if ltb (length buf) (offset + 40)
        then returned []
        else (sliced buf (offset + 24) (offset + 40) >>= λ bs.
            returned (codes "0x" ++ hex_bytes bs)))
    else returned []

-- The bits of a word: x & flag != 0, for a flag that is a power of two
abbrev pub has_flag : ℕ → ℕ → Bool
has_flag x flag = (x / flag) % 2 == 1

abbrev pub flag_labels : List (ℕ × Text) → ℕ → List Text
flag_labels [] reason = []
flag_labels ((flag, label) ∷ rest) reason =
    let out = flag_labels rest reason in if has_flag reason flag then label ∷ out else out

-- What windows and time do, and the order of the range over usnReasonLabels.
pub record Platform : Type 0 where
  pub utf16_to_string : List ℕ → Text
  -- time.Unix(0, ns).UTC().Format(time.RFC3339), of an int64's bit pattern
  pub format_ns : ℕ → Text
  pub label_order : List (ℕ × Text)

-- 1970 in a FILETIME
abbrev pub unix_filetime : ℕ
unix_filetime = 116_444_736_000_000_000

abbrev pub with_event : List Event → Option Event → List Event
with_event events none = events
with_event events (some ev) = events ++ ev ∷ []

-- The offset of the next record: records begin at multiples of 8.
abbrev pub aligned : ℕ → ℕ
aligned offset = if not (offset % 8 == 0) then offset + (8 - offset % 8) else offset

module _ (w : Platform) where
  -- reasonLabels
  unfoldable pub reason_labels : ℕ → List Text
  reason_labels reason = elim (flag_labels w.label_order reason) [
    | [] ↦ hex8 reason ∷ []
    | l ∷ ls ↦ l ∷ ls
  ]

  -- filetimeRFC3339 of eight bytes
  unfoldable pub filetime_rfc3339 : List ℕ → Text
  filetime_rfc3339 bs =
      if ltb (length bs) 8
      then []
      else if ltb (le_value bs) unix_filetime
      then []
      else w.format_ns ((le_value bs - unix_filetime) * 100 % 2 ^ 64)

  -- decodeUsnRecord, once the name is known to be good
  unfoldable pub record_event :
      List ℕ → ℕ → ℕ → FieldOffsets → ℕ → ℕ → Text → Outcome (Option Event)
  unfolding file_ref_from_record parent_ref_from_record reason_labels filetime_rfc3339
  record_event buf offset major fo usn reason name = do
    file_ref ← file_ref_from_record buf offset major
    parent_ref ← parent_ref_from_record buf offset major
    time ← sliced buf (offset + fo.usn_off + 8) (offset + fo.usn_off + 16)
    returned (
        some (record {
          usn = hex16 usn;
          file_name = name;
          file_ref = file_ref;
          parent_ref = parent_ref;
          path = [];
          timestamp = filetime_rfc3339 time;
          reasons = reason_labels reason;
          reason_code = hex8 reason;
          change = unset;
        }))

  -- decodeUsnRecord, from the name on
  unfoldable pub named_event :
      List ℕ → ℕ → ℕ → ℕ → FieldOffsets → ℕ → ℕ → ℕ → ℕ → Outcome (Option Event)
  unfolding record_event looks_like_usn_file_name sliced
  named_event buf offset rec_len major fo usn reason name_len name_off =
      let name_start = offset + name_off in
      let name_end = name_start + name_len in
      if name_len == 0 || ltb (offset + rec_len) name_end
      then returned none
      else (sliced buf name_start name_end >>= λ bs.
          let name = w.utf16_to_string (words bs) in
          if not (looks_like_usn_file_name name)
          then returned none
          else record_event buf offset major fo usn reason name)

  -- decodeUsnRecord, for a known version whose fields the record holds
  unfoldable pub known_event : List ℕ → ℕ → ℕ → ℕ → FieldOffsets → Outcome (Option Event)
  unfolding named_event sliced
  known_event buf offset rec_len major fo = do
    usn ← sliced buf (offset + fo.usn_off) (offset + fo.usn_off + 8)
    reason ← sliced buf (offset + fo.reason_off) (offset + fo.reason_off + 4)
    name_len ← sliced buf (offset + fo.name_len_off) (offset + fo.name_len_off + 2)
    name_off ← sliced buf (offset + fo.name_off_off) (offset + fo.name_off_off + 2)
    named_event buf offset rec_len major fo (le_value usn) (le_value reason) (le_value name_len)
        (le_value name_off)

  abbrev pub event_of_version : List ℕ → ℕ → ℕ → ℕ → Option FieldOffsets → Outcome (Option Event)
  event_of_version buf offset rec_len major none = returned none
  event_of_version buf offset rec_len major (some fo) =
      if ltb (offset + rec_len) (offset + fo.name_off_off + 2)
      then returned none
      else known_event buf offset rec_len major fo

  -- decodeUsnRecord
  unfoldable pub decode_usn_record : List ℕ → ℕ → ℕ → Outcome (Option Event)
  unfolding known_event usn_record_field_offsets sliced
  decode_usn_record buf offset rec_len = sliced buf (offset + 4) (offset + 6) >>= λ major.
      event_of_version buf offset rec_len (le_value major)
        (usn_record_field_offsets (le_value major))

  -- The loop of parseUsnRecordBuffer
  unfoldable pub parse_records : ℕ → List ℕ → ℕ → ℕ → ℕ → List Event → Outcome (List Event)
  unfolding decode_usn_record sliced
  parse_records zero buf offset end limit events = out_of_fuel
  parse_records (suc fuel) buf offset end limit events =
      if leb (offset + 60) end && ltb (length events) limit
      then (sliced buf offset (offset + 4) >>= λ head.
          if ltb (le_value head) 60 || ltb end (offset + le_value head)
          then returned events
          else (decode_usn_record buf offset (le_value head) >>= λ ev.
              parse_records fuel buf (aligned (offset + le_value head)) end limit
                (with_event events ev)))
      else returned events

  -- parseUsnRecordBuffer. Each round but the last goes on by at least 60 bytes.
  unfoldable pub parse_usn_record_buffer : List ℕ → ℕ → ℕ → ℕ → Outcome (List Event)
  unfolding parse_records
  parse_usn_record_buffer buf offset end limit =
      parse_records (suc (end - offset)) buf offset end limit []
