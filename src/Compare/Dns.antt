-- ===== src/Compare/Dns.antt =====
-- DedupDNSByQuery of go/internal/diff/http_evidence.go, with looksLikeIP of network_window.go. A row has the
-- texts that stringFromMap and the type switches find in its map; a merge changes the row that is kept.
pub mod Steps
pub mod Best
mod Examples
use quarantine_lab.Prelude.{
  ℕ, suc, ◌+◌, Bool, true, false, ◌&&◌, ◌||◌, not, Option, none, some, List, [], ◌∷◌, ◌++◌, ◌==◌,
  ltb, leb, if◌then◌else◌, drop,
}
use mathlib.Core.List.{reverse}
use quarantine_lab.Prelude.Text.{
  Text, codes, text_eq, text_lt, among_texts, to_lower, trim_space, has_suffix, has_char,
}
use quarantine_lab.Bodies.Decode.{split_at_char}
use quarantine_lab.Cases.{lookup}

-- The value below "answers": []string, []any with none for what is no string, or anything else
pub data Answers : Type 0 where
  strings : List Text → Answers
  any_values : List (Option Text) → Answers
  no_answers : Answers

pub record DnsRow : Type 0 where
  pub t : Text
  pub query : Text
  pub qname : Text
  pub source : Text
  pub answers : Answers

char_count : ℕ → Text → ℕ
char_count c [] = 0
char_count c (d ∷ s) = if d == c then suc (char_count c s) else char_count c s

all_digits : Text → Bool
all_digits [] = true
all_digits (c ∷ s) = (leb b'0' c && leb c b'9') && all_digits s

number_parts : List Text → Bool
unfolding all_digits
number_parts [] = true
number_parts (p ∷ ps) = (not (text_eq p []) && all_digits p) && number_parts ps

-- looksLikeIP
unfoldable pub looks_like_ip : Text → Bool
unfolding char_count number_parts split_at_char has_char
looks_like_ip s =
    if text_eq s []
    then false
    else if char_count b'.' s == 3 && number_parts (split_at_char b'.' s)
    then true
    else has_char b':' s && not (has_char b' ' s || has_char b'/' s)

-- The closure `priority`
unfoldable pub source_priority : Text → ℕ
unfolding to_lower trim_space
source_priority src =
    let s = to_lower (trim_space src) in
    if text_eq s (codes "sysmon")
    then 4
    else if text_eq s (codes "pcap")
    then 3
    else if text_eq s (codes "sni")
    then 2
    else if text_eq s (codes "mitm") || text_eq s (codes "proxy")
    then 1
    else 0

-- strings.TrimSuffix of a dot
trim_suffix_dot : Text → Text
unfolding has_suffix
trim_suffix_dot s = if has_suffix s (codes ".") then reverse (drop 1 (reverse s)) else s

-- The name that a row asks for
unfoldable pub query_name : DnsRow → Text
unfolding to_lower trim_suffix_dot trim_space
query_name r =
    let q = to_lower (trim_suffix_dot (trim_space r.query)) in
    if text_eq q [] then to_lower (trim_suffix_dot (trim_space r.qname)) else q

filled : List (Option Text) → List Text
filled [] = []
filled (none ∷ v) = filled v
filled (some s ∷ v) = if text_eq s [] then filled v else s ∷ filled v

unfoldable pub existing_answers : Answers → List Text
unfolding filled
existing_answers (strings v) = v
existing_answers (any_values v) = filled v
existing_answers no_answers = []

-- The closure `add`; what was seen is what exists.
unfoldable pub add_answer : List Text → Text → List Text
unfolding trim_space among_texts
add_answer existing s =
    let a = trim_space s in
    if text_eq a [] || among_texts a existing then existing else existing ++ (a ∷ [])

unfoldable pub add_answers : List Text → Answers → List Text
unfolding add_answer
add_answers existing (strings []) = existing
add_answers existing (strings (s ∷ v)) = add_answers (add_answer existing s) (strings v)
add_answers existing (any_values []) = existing
add_answers existing (any_values (none ∷ v)) = add_answers existing (any_values v)
add_answers existing (any_values (some s ∷ v)) = add_answers (add_answer existing s) (any_values v)
add_answers existing no_answers = existing

-- mergeDNSAnswers
unfoldable pub merge_dns_answers : DnsRow → DnsRow → DnsRow
unfolding existing_answers add_answers
merge_dns_answers dst src = elim (add_answers (existing_answers dst.answers) src.answers) [
  | [] ↦ dst
  | s ∷ v ↦ record dst { answers = strings (s ∷ v) }
]

-- `best` and `order` of DedupDNSByQuery
pub record DedupState : Type 0 where
  pub best : List (Text × DnsRow)
  pub order : List Text

-- One round of the loop. Rows of the same and of a lower priority are merged in the same way.
unfoldable pub dedup_row : DedupState → DnsRow → DedupState
unfolding query_name looks_like_ip lookup source_priority merge_dns_answers
dedup_row st r =
    let q = query_name r in
    if text_eq q [] || looks_like_ip q then st else elim (lookup q st.best) [
      | none ↦ record { best = (q, r) ∷ st.best; order = st.order ++ (q ∷ []) }
      | some prev ↦
          if ltb (source_priority prev.source) (source_priority r.source)
          then record st { best = (q, r) ∷ st.best }
          else record st { best = (q, merge_dns_answers prev r) ∷ st.best }
    ]

unfoldable pub dedup_loop : DedupState → List DnsRow → DedupState
unfolding dedup_row
dedup_loop st [] = st
dedup_loop st (r ∷ rs) = dedup_loop (dedup_row st r) rs

-- best[q] for every q of the order
unfoldable pub rows_of : List (Text × DnsRow) → List Text → List DnsRow
unfolding lookup
rows_of best [] = []
rows_of best (q ∷ qs) = elim (lookup q best) [
  | none ↦ rows_of best qs
  | some r ↦ r ∷ rows_of best qs
]

-- The order of sort.SliceStable
unfoldable pub row_less : DnsRow → DnsRow → Bool
row_less a b = if text_eq a.t b.t then text_lt a.query b.query else text_lt a.t b.t

unfoldable pub insert_row : DnsRow → List DnsRow → List DnsRow
unfolding row_less
insert_row r [] = r ∷ []
insert_row r (x ∷ xs) =
    let rest = insert_row r xs in if row_less x r then x ∷ rest else r ∷ (x ∷ xs)

unfoldable pub sort_rows : List DnsRow → List DnsRow
unfolding insert_row
sort_rows [] = []
sort_rows (r ∷ rs) = insert_row r (sort_rows rs)

-- DedupDNSByQuery
unfoldable pub dedup_dns_by_query : List DnsRow → List DnsRow
unfolding dedup_loop rows_of sort_rows
dedup_dns_by_query rows =
    let st = dedup_loop (record { best = []; order = [] }) rows in
    sort_rows (rows_of st.best st.order)
