-- ===== src/Compare/Dns/Examples.antt =====
-- Rows for one name from two sources, and one for an address.
use quarantine_lab.Prelude.{◌≡◌, refl, none, List, [], ◌∷◌, if◌then◌else◌}
use quarantine_lab.Prelude.Text.{
  Text, codes, among_texts, to_lower, trim_space, trim_left, is_space, has_suffix, has_prefix,
  has_char,
}
use quarantine_lab.Bodies.Decode.{split_at_char}
use quarantine_lab.Cases.{lookup}
use quarantine_lab.Compare.Dns.{
  DnsRow, Answers, strings, no_answers, dedup_dns_by_query, dedup_loop, dedup_row, rows_of,
  sort_rows, insert_row, row_less, query_name, looks_like_ip, source_priority, merge_dns_answers,
  existing_answers, add_answers, add_answer,
}
use quarantine_lab.Compare.Dns.Steps.{counted, best_from}
use quarantine_lab.Compare.Dns.Best.{rows_with, held_with, dedup_dns_by_query-rows_with}

abbrev row : Text → Text → Answers → DnsRow
row q src a = record { t = []; query = q; qname = []; source = src; answers = a }

abbrev by_proxy : DnsRow
by_proxy = row (codes "A.example.") (codes "proxy") (strings (codes "1.1.1.1" ∷ []))

abbrev by_sysmon : DnsRow
by_sysmon = row (codes "a.example") (codes "Sysmon") no_answers

-- The answers of a row that was seen before a better one are lost, those of a later one are merged.
answers_lost : dedup_dns_by_query (by_proxy ∷ by_sysmon ∷ []) ≡ by_sysmon ∷ []
unfolding dedup_dns_by_query dedup_loop dedup_row rows_of sort_rows insert_row row_less query_name
    looks_like_ip source_priority merge_dns_answers existing_answers add_answers add_answer lookup
    split_at_char to_lower trim_space trim_left is_space has_suffix has_prefix has_char among_texts
answers_lost = refl

answers_merged :
    dedup_dns_by_query (by_sysmon ∷ by_proxy ∷ [])
    ≡ record by_sysmon { answers = strings (codes "1.1.1.1" ∷ []) } ∷ []
unfolding dedup_dns_by_query dedup_loop dedup_row rows_of sort_rows insert_row row_less query_name
    looks_like_ip source_priority merge_dns_answers existing_answers add_answers add_answer lookup
    split_at_char to_lower trim_space trim_left is_space has_suffix has_prefix has_char among_texts
answers_merged = refl

abbrev rows : List DnsRow
rows = by_proxy ∷ row (codes "10.0.0.1") [] no_answers ∷ by_sysmon ∷ []

dedup_dns_by_query-rows_with_example : rows_with (codes "a.example") 4 (dedup_dns_by_query rows) ≡ (
    if counted (codes "a.example")
    then held_with 4 (best_from (codes "a.example") none rows)
    else 0)
dedup_dns_by_query-rows_with_example = dedup_dns_by_query-rows_with rows (codes "a.example") 4
