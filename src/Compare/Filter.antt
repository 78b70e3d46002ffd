-- ===== src/Compare/Filter.antt =====
-- go/internal/diff/noise.go: stripUSNLeafFiles, recountSummary and FilterResultWith. A result has the
-- parts of the Go struct that the three of them touch; a copy of a value is the value.
use quarantine_lab.Prelude.{
  ℕ, ◌+◌, ◌-◌, Bool, not, Option, none, some, List, [], ◌∷◌, if◌then◌else◌, length, ltb,
}
use quarantine_lab.Prelude.Text.{Text}
use quarantine_lab.Compare.{Changes}
use quarantine_lab.Compare.Noise.{
  Event, is_file_noise_patterns, is_modified_noise, is_network_dns_noise, is_network_request_noise,
  is_sysmon_noise, is_usn_noise, is_usn_leaf_file, is_usn_leaf_modified, is_registry_noise,
}

-- evidence.RegistryEntry; `v` is the printed value.
pub record RegistryEntry : Type 0 where
  pub k : Text
  pub n : Text
  pub t : Text
  pub v : Text

pub record RegistryModified : Type 0 where
  pub key : Text
  pub name : Text
  pub before : Text
  pub after : Text
  pub before_type : Text
  pub after_type : Text

pub record RegistrySection : Type 0 where
  pub added : List RegistryEntry
  pub removed : List RegistryEntry
  pub modified : List RegistryModified

pub record UsnSection : Type 0 where
  pub event_count : ℕ
  pub events : List Event

pub record NetworkSection : Type 0 where
  pub dns : List Event
  pub requests : List Event

pub record Summary : Type 0 where
  pub files_added : ℕ
  pub files_removed : ℕ
  pub files_modified : ℕ
  pub registry_added : ℕ
  pub registry_removed : ℕ
  pub registry_modified : ℕ
  pub registry_volatile_filtered : ℕ
  pub registry_diff_source : Text
  pub tasks_added : ℕ
  pub tasks_removed : ℕ
  pub tasks_modified : ℕ
  pub tasks_volatile_only : ℕ
  pub sysmon_added : ℕ
  pub service_installs_added : ℕ
  pub dns_queries : ℕ
  pub network_requests : ℕ
  pub file_diff_source : Text

pub record Result : Type 0 where
  pub summary : Summary
  pub files : Changes
  pub registry : RegistrySection
  pub sysmon : List Event
  pub usn : Option UsnSection
  pub network : Option NetworkSection

-- The elements for which a test of noise fails
unfoldable pub keep : {A : Type 0} → (A → Bool) → List A → List A
keep noise [] = []
keep noise (a ∷ as') = let rest = keep noise as' in if not (noise a) then a ∷ rest else rest

-- stripUSNLeafFiles
unfoldable pub strip_usn_leaf_files : Result → Result
unfolding keep is_usn_leaf_file is_usn_leaf_modified
strip_usn_leaf_files r =
    let added = keep is_usn_leaf_file r.files.added in
    let removed = keep is_usn_leaf_file r.files.removed in
    let modified = keep is_usn_leaf_modified r.files.modified in
    record r {
      files = record { added = added; removed = removed; modified = modified };
      summary = record r.summary {
        files_added = length added;
        files_removed = length removed;
        files_modified = length modified;
      };
    }

-- recountSummary
unfoldable pub recount_summary : Result → Result
recount_summary r = record r {
  summary = record r.summary {
    files_added = length r.files.added;
    files_removed = length r.files.removed;
    files_modified = length r.files.modified;
    sysmon_added = length r.sysmon;
    dns_queries = elim r.network [ none ↦ r.summary.dns_queries | some n ↦ length n.dns ];
    network_requests = elim r.network [
      | none ↦ r.summary.network_requests
      | some n ↦ length n.requests
    ];
    registry_added = length r.registry.added;
    registry_removed = length r.registry.removed;
    registry_modified = length r.registry.modified;
  };
  usn = elim r.usn [ none ↦ none | some u ↦ some (record u { event_count = length u.events }) ];
}

-- dropped
unfoldable pub dropped_entries : RegistrySection → RegistrySection → ℕ
dropped_entries s kept =
    (length s.added - length kept.added)
    + (length s.removed - length kept.removed)
    + (length s.modified - length kept.modified)

module _ (url_host : Text → Option Text) (domains files registry : Option (List Text)) where
  unfoldable pub filter_files : Changes → Changes
  unfolding keep is_file_noise_patterns is_modified_noise
  filter_files c = record {
    added = keep (λ f. is_file_noise_patterns f files) c.added;
    removed = keep (λ f. is_file_noise_patterns f files) c.removed;
    modified = keep (λ m. is_modified_noise m files) c.modified;
  }

  unfoldable pub filter_usn : Option UsnSection → Option UsnSection
  unfolding keep is_usn_noise
  filter_usn none = none
  filter_usn (some u) = some (record u { events = keep (λ e. is_usn_noise e files) u.events })

  unfoldable pub filter_network : Option NetworkSection → Option NetworkSection
  unfolding keep is_network_dns_noise is_network_request_noise
  filter_network none = none
  filter_network (some n) = some (record {
    dns = keep (λ e. is_network_dns_noise url_host e domains) n.dns;
    requests = keep (λ e. is_network_request_noise url_host e domains) n.requests;
  })

  unfoldable pub filter_registry : RegistrySection → RegistrySection
  unfolding keep is_registry_noise
  filter_registry s = record {
    added = keep (λ e. is_registry_noise e.k registry) s.added;
    removed = keep (λ e. is_registry_noise e.k registry) s.removed;
    modified = keep (λ e. is_registry_noise e.key registry) s.modified;
  }

  -- FilterResultWith from the test of hideNoise on, before the last recount
  unfoldable pub without_noise : Result → Result
  unfolding filter_files filter_usn filter_network filter_registry dropped_entries is_sysmon_noise
  without_noise r =
      let kept = filter_registry r.registry in
      let dropped = dropped_entries r.registry kept in
      let volatile = r.summary.registry_volatile_filtered in
      record {
        summary = record r.summary {
          registry_volatile_filtered = if ltb 0 dropped then volatile + dropped else volatile;
        };
        files = filter_files r.files;
        registry = kept;
        sysmon = keep (λ e. is_sysmon_noise url_host e domains files) r.sysmon;
        usn = filter_usn r.usn;
        network = filter_network r.network;
      }

  -- FilterResultWith
  unfoldable pub filter_result_with : Option Result → Bool → Option Result
  unfolding strip_usn_leaf_files without_noise recount_summary
  filter_result_with none hide_noise = none
  filter_result_with (some r) hide_noise =
      let out = strip_usn_leaf_files r in
      if not hide_noise
      then some (recount_summary out)
      else some (recount_summary (without_noise out))
