-- ===== src/Compare/Examples.antt =====
-- A file that is gone, one whose contents changed and one that is new, with capitals that differ.
use quarantine_lab.Prelude.{
  Option, ◌⊎◌, drop, ◌+◌, false, ◌≡◌, refl, sym, subst, inl, inr, Bool-cases, ◌↔◌, none, some, List,
  [], ◌∷◌, true, length,
}
use quarantine_lab.Prelude.Int.{pos}
use quarantine_lab.Prelude.Text.{Text, codes, text_eq, text_eq→eq, to_lower}
use quarantine_lab.Compare.{
  path_value, FileEntry, FileDetail, FileModified, FileMap, get, index_files, file_detail, differs,
  file_modified, diff_files, index_loop, put, path_value,
}
use quarantine_lab.Compare.Ordered.{Among}
use quarantine_lab.Compare.Index.{Proper, last_with, index_files-Proper}
use quarantine_lab.Compare.Listed.{diff_files-listed, diff_files-order}
use quarantine_lab.Compare.Defaults.{default_noise_domains}
use quarantine_lab.Compare.Noise.{
  Event, or_default, extract_network_host, is_network_host_noise_domains,
}
use quarantine_lab.Compare.Hosts.{LabHost, UnderAny, is_network_host_noise_domains_iff}
use quarantine_lab.Compare.Filter.{Result, RegistryEntry, RegistrySection, filter_result_with}
use quarantine_lab.Compare.Filtered.{
  Counts, other_counts, registry_entries, filter_result_with-Counts,
}
use quarantine_lab.Compare.Twice.{filter_result_with-twice}
use quarantine_lab.Compare.Hkcu.{
  Manifest, shared, suppress_false_hkcu_diff, suppress_false_hkcu_diff-shared, UserKey, Failed,
  is_interactive_user_hku,
}
use quarantine_lab.Compare.Captured.{
  files_from_captured_changes, listed, with_path, GoneFile, Shown,
  files_from_captured_changes-removed,
}

abbrev file : Text → Text → Text → FileEntry
file p hash change = record {
  p = p;
  path = [];
  s = pos 3;
  h = hash;
  m = [];
  src = [];
  change = change;
  c = [];
  noise = [];
}

abbrev before : List FileEntry
before = file (codes "C:\\A.txt") (codes "1") [] ∷ file (codes "C:\\b.txt") (codes "2") [] ∷ []

abbrev later : List FileEntry
later = file (codes "C:\\B.TXT") (codes "3") [] ∷ file (codes "C:\\c.txt") (codes "4") [] ∷ []

diff_files-listed_example :
    let r = diff_files (index_files before) (index_files later) in
    ((d : FileDetail)
      → Among d r.added ↔ (
          (k : Text) × (f : FileEntry) × (last_with k later ≡ some f)
          × (last_with k before ≡ none)
          × (d ≡ file_detail f)))
    × ((d : FileDetail)
        → Among d r.removed ↔ (
            (k : Text) × (f : FileEntry) × (last_with k before ≡ some f)
            × (last_with k later ≡ none)
            × (d ≡ file_detail f)))
    × ((d : FileModified)
        → Among d r.modified ↔ (
            (k : Text) × (lf : FileEntry) × (rf : FileEntry) × (last_with k before ≡ some lf)
            × (last_with k later ≡ some rf)
            × (differs lf rf ≡ true)
            × (d ≡ file_modified lf rf)))
diff_files-listed_example = diff_files-listed before later

-- The two entries of the left map in the other order
abbrev turned : FileMap
turned =
    (codes "c:\\b.txt", file (codes "C:\\b.txt") (codes "2") [])
    ∷ (codes "c:\\a.txt", file (codes "C:\\A.txt") (codes "1") [])
    ∷ []

turned-Proper : Proper turned
unfolding to_lower path_value get
turned-Proper = (refl, refl, (refl, refl, tt))

turned-get : (k : Text) → get k turned ≡ get k (index_files before)
unfolding get index_files index_loop put to_lower path_value
turned-get k = elim (Bool-cases (text_eq k (codes "c:\\a.txt"))) [
  | inl a ↦
      subst (λ t. get t turned ≡ get t (index_files before))
        (sym (text_eq→eq k (codes "c:\\a.txt") a)) refl
  | inr a ↦ elim (Bool-cases (text_eq k (codes "c:\\b.txt"))) [
    | inl b ↦ rw (get, a, b) refl
    | inr b ↦ rw (get, a, b) refl
  ]
]

diff_files-order_example :
    diff_files (index_files before) (index_files later) ≡ diff_files turned (index_files later)
diff_files-order_example =
    diff_files-order (index_files before) (index_files later) turned (index_files later)
      (index_files-Proper before) (index_files-Proper later) turned-Proper
      (index_files-Proper later) turned-get (λ k. refl)

abbrev reported : List FileEntry
reported =
    file (codes "C:\\a") (codes "1") (codes "removed")
    ∷ (record (file (codes "C:\\b") [] (codes "Removed")) { s = pos 0 })
    ∷ file (codes "C:\\c") [] (codes "modified")
    ∷ file [] (codes "1") (codes "added")
    ∷ []

files_from_captured_changes-removed_example :
    ((f : FileEntry)
      → Among f reported
      → text_eq (path_value f) [] ≡ false
      → Shown f (files_from_captured_changes reported))
    × (listed (files_from_captured_changes reported) ≡ length (with_path reported))
    × ((d : FileDetail)
        → Among d (files_from_captured_changes reported).removed
        → (f : FileEntry) × Among f reported × GoneFile d f)
files_from_captured_changes-removed_example = files_from_captured_changes-removed reported

-- A parser of addresses that finds the host between "https://" and the end
abbrev bare_host : Text → Option Text
bare_host t = some (drop 8 t)

is_network_host_noise_domains_iff_example :
    (is_network_host_noise_domains bare_host (codes "https://www.Bing.com") none ≡ true) ↔ (
      (text_eq (extract_network_host bare_host (codes "https://www.Bing.com")) [] ≡ false)
      × (LabHost (extract_network_host bare_host (codes "https://www.Bing.com"))
          ⊎ UnderAny
              (extract_network_host bare_host (codes "https://www.Bing.com"))
              (or_default default_noise_domains none)))
is_network_host_noise_domains_iff_example =
    is_network_host_noise_domains_iff bare_host (codes "https://www.Bing.com") none

abbrev event : Text → Event
event host = (codes "host", some host) ∷ (codes "port", none) ∷ []

abbrev found : Result
found = record {
  summary = record {
    files_added = 0;
    files_removed = 0;
    files_modified = 0;
    registry_added = 0;
    registry_removed = 0;
    registry_modified = 0;
    registry_volatile_filtered = 2;
    registry_diff_source = [];
    tasks_added = 1;
    tasks_removed = 0;
    tasks_modified = 0;
    tasks_volatile_only = 0;
    sysmon_added = 0;
    service_installs_added = 0;
    dns_queries = 0;
    network_requests = 0;
    file_diff_source = [];
  };
  files = diff_files (index_files before) (index_files later);
  registry = record {
    added =
        record { k = codes "HKLM/Volatile Environment/1"; n = []; t = []; v = [] }
        ∷ record { k = codes "HKLM\\Run"; n = []; t = []; v = [] }
        ∷ [];
    removed = [];
    modified = [];
  };
  sysmon = event (codes "x") ∷ [];
  usn = some (record { event_count = 9; events = event (codes "y") ∷ [] });
  network =
      some (record {
        dns = event (codes "localhost") ∷ [];
        requests = event (codes "evil.test") ∷ [];
      });
}

filter_result_with-Counts_example :
    (out : Result) × (filter_result_with bare_host none none none (some found) true ≡ some out)
    × Counts out
    × (out.summary.registry_volatile_filtered + registry_entries out
        ≡ found.summary.registry_volatile_filtered + registry_entries found)
    × (other_counts out.summary ≡ other_counts found.summary)
filter_result_with-Counts_example = filter_result_with-Counts bare_host none none none found true

filter_result_with-twice_example :
    let run = λ (x : Option Result). filter_result_with bare_host none none none x true in
    run (run (some found)) ≡ run (some found)
filter_result_with-twice_example =
    filter_result_with-twice bare_host none none none (some found) true

abbrev one_entry : Text → List RegistryEntry
one_entry key = record { k = key; n = []; t = []; v = [] } ∷ []

-- The user hives of the right side gave a warning.
abbrev old_side : Manifest
old_side = record {
  snapshot = codes "clean";
  registry = one_entry (codes "HKU:/S-1-5-21-7/Run");
  user_registry_warn = [];
}

abbrev new_side : Manifest
new_side = record {
  snapshot = codes "dirty";
  registry = [];
  user_registry_warn = codes "locked" ∷ [];
}

abbrev gone_entries : RegistrySection
gone_entries = record {
  added = one_entry (codes "HKLM\\Run");
  removed = one_entry (codes "HKU:/S-1-5-21-7/Run");
  modified = [];
}

suppress_false_hkcu_diff-shared_example :
    (shared (suppress_false_hkcu_diff old_side new_side gone_entries).section ≡ shared gone_entries)
    × ((key : Text) → (is_interactive_user_hku key ≡ true) ↔ UserKey key)
    × ((Failed old_side new_side ⊎ Failed new_side old_side)
        ⊎ (suppress_false_hkcu_diff old_side new_side gone_entries
            ≡ record { section = gone_entries; warnings = [] }))
suppress_false_hkcu_diff-shared_example =
    suppress_false_hkcu_diff-shared old_side new_side gone_entries
