-- ===== src/Registry/Index.antt =====
-- hive_index.go and sortRecords of hive_extract.go: the sorted index of a snapshot's registry values.
-- gzip, the scanner and the JSON decoder are a parameter: the lines that they give, decoded or not, and
-- the scanner's error at the end.
pub mod Sorted
use quarantine_lab.Prelude.{
  ℕ, Bool, true, false, ◌||◌, not, Option, none, some, List, [], ◌∷◌, ◌++◌, if◌then◌else◌,
}
use quarantine_lab.Prelude.Int.{ℤ}
use quarantine_lab.Prelude.Text.{Text, codes, to_lower, text_lt}

-- `v` is the JSON text of a value that is there.
pub record IndexRecord : Type 0 where
  pub k : Text
  pub n : Text
  pub t : Text
  pub v : Option Text
  pub h : Text
  pub size : ℤ

-- SortKey
unfoldable pub sort_key : IndexRecord → Text
unfolding to_lower
sort_key r = to_lower r.k ++ (codes "|" ++ to_lower r.n)

-- recordsSorted, from its second record on
unfoldable pub sorted_after : IndexRecord → List IndexRecord → Bool
unfolding sort_key
sorted_after p [] = true
sorted_after p (r ∷ rs) =
    let rest = sorted_after r rs in if text_lt (sort_key r) (sort_key p) then false else rest

-- recordsSorted
unfoldable pub records_sorted : List IndexRecord → Bool
unfolding sorted_after
records_sorted [] = true
records_sorted (r ∷ rs) = sorted_after r rs

unfoldable pub insert_record : IndexRecord → List IndexRecord → List IndexRecord
unfolding sort_key
insert_record r [] = r ∷ []
insert_record r (q ∷ qs) =
    if text_lt (sort_key q) (sort_key r) then q ∷ insert_record r qs else r ∷ q ∷ qs

-- sortRecords
unfoldable pub sort_records : List IndexRecord → List IndexRecord
unfolding insert_record
sort_records [] = []
sort_records (r ∷ rs) = insert_record r (sort_records rs)

-- The records that WriteIndexSorted writes
unfoldable pub written_records : List IndexRecord → List IndexRecord
unfolding records_sorted sort_records
written_records records = if not (records_sorted records) then sort_records records else records

-- One line of an index, as json.Unmarshal takes it.
pub data Line : Type 0 where
  decoded : IndexRecord → Line
  malformed : Text → Line

-- IndexReader: `lines` are those that its scanner has not given yet, `scan_err` is the scanner's error
-- after the last one.
pub record IndexReader : Type 0 where
  pub lines : List Line
  pub scan_err : Option Text
  pub rec : IndexRecord
  pub err : Option Text
  pub eof : Bool

abbrev pub is_some : Option Text → Bool
is_some none = false
is_some (some e) = true

-- What Next answers, and the reader after it.
pub record Advance : Type 0 where
  pub ok : Bool
  pub reader : IndexReader

unfoldable pub scan : IndexReader → List Line → Advance
scan r [] = record { ok = false; reader = record r { eof = true; err = r.scan_err } }
scan r (malformed e ∷ ls) = record { ok = false; reader = record r { lines = ls; err = some e } }
scan r (decoded rec ∷ ls) = record { ok = true; reader = record r { lines = ls; rec = rec } }

-- Next
unfoldable pub next : IndexReader → Advance
unfolding scan
next r = if r.eof || is_some r.err then record { ok = false; reader = r } else scan r r.lines

-- The reader that OpenIndex returns; its record is the zero value.
abbrev pub zero_record : IndexRecord
zero_record = record { k = []; n = []; t = []; v = none; h = []; size = ℤ.pos 0 }

unfoldable pub open_index : List Line → Option Text → IndexReader
open_index ls e = record { lines = ls; scan_err = e; rec = zero_record; err = none; eof = false }
