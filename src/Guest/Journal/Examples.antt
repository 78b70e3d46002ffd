-- ===== src/Guest/Journal/Examples.antt =====
-- A buffer with one record of version 2, for a file `a`.
use quarantine_lab.Prelude.{ℕ, ◌≡◌, ◌≤◌, refl, List, [], ◌∷◌, ◌++◌, length, replicate, arith}
use quarantine_lab.Prelude.Text.{Text, codes, to_lower, trim_space, has_prefix}
use quarantine_lab.Guest.Usn.{Event}
use quarantine_lab.Guest.Journal.{
  Platform, Outcome, returned, parse_usn_record_buffer, parse_records, decode_usn_record,
  known_event, named_event, record_event, sliced, usn_record_field_offsets,
  looks_like_usn_file_name, file_ref_from_record, parent_ref_from_record, filetime_rfc3339,
  reason_labels,
}
use quarantine_lab.Guest.Journal.Bounds.{Returns, parse_usn_record_buffer-Returns}

abbrev windows : Platform
windows = record {
  utf16_to_string = λ ws. ws;
  format_ns = λ ns. [];
  label_order = (0x100, codes "file_create") ∷ (0x200, codes "file_delete") ∷ [];
}

-- The eight bytes in front hold the next USN.
abbrev buffer : List ℕ
buffer =
    replicate 8 0
    ++ (64 ∷ 0 ∷ 0 ∷ 0 ∷ 2 ∷ 0 ∷ 0 ∷ 0 ∷ [])
    ++ (replicate 16 7
        ++ ((0x10 ∷ 0 ∷ 0 ∷ 0 ∷ 0 ∷ 0 ∷ 0 ∷ 0 ∷ [])
            ++ (replicate 8 0
                ++ ((0 ∷ 1 ∷ 0 ∷ 0 ∷ [])
                    ++ (replicate 12 0 ++ (2 ∷ 0 ∷ 60 ∷ 0 ∷ 97 ∷ 0 ∷ 0 ∷ 0 ∷ []))))))

parse_usn_record_buffer-Returns_example :
    Returns (λ events. length events ≤ 5) (parse_usn_record_buffer windows buffer 8 72 5)
parse_usn_record_buffer-Returns_example =
    parse_usn_record_buffer-Returns windows buffer 8 72 5 (omega arith)

names_of : Outcome (List Event) → List Text
names_of (returned (ev ∷ events)) = ev.file_name ∷ ev.usn ∷ ev.reasons
names_of o = []

one_record :
    names_of (parse_usn_record_buffer windows buffer 8 72 5)
    ≡ codes "a" ∷ codes "0x0000000000000010" ∷ codes "file_create" ∷ []
unfolding names_of parse_usn_record_buffer parse_records decode_usn_record known_event named_event
    record_event sliced usn_record_field_offsets looks_like_usn_file_name file_ref_from_record
    parent_ref_from_record filetime_rfc3339 reason_labels to_lower trim_space has_prefix
one_record = refl
