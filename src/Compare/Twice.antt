-- ===== src/Compare/Twice.antt =====
-- FilterResultWith: a second run changes nothing.
use quarantine_lab.Prelude.{◌≡◌, refl, ap, ◌∙◌, Bool, true, false, Option, none, some, List, arith}
use quarantine_lab.Prelude.Text.{Text}
use quarantine_lab.Compare.{Changes}
use quarantine_lab.Compare.Noise.{
  Event, is_file_noise_patterns, is_modified_noise, is_network_dns_noise, is_network_request_noise,
  is_sysmon_noise, is_usn_noise, is_usn_leaf_file, is_usn_leaf_modified, is_registry_noise,
}
use quarantine_lab.Compare.Filter.{
  RegistrySection, UsnSection, NetworkSection, Summary, Result, keep, strip_usn_leaf_files,
  recount_summary, filter_files, filter_usn, filter_network, filter_registry, dropped_entries,
  without_noise, filter_result_with,
}
use quarantine_lab.Compare.Filtered.{keep-keep, keep-again, recount_twice}

abbrev StripsTo : Changes → Changes → Type 0
StripsTo c d =
    (keep is_usn_leaf_file c.added ≡ d.added)
    × (keep is_usn_leaf_file c.removed ≡ d.removed)
    × (keep is_usn_leaf_modified c.modified ≡ d.modified)

-- A result without such files, and counted
strip_fixed :
    (r : Result)
    → StripsTo r.files r.files
    → strip_usn_leaf_files (recount_summary r) ≡ recount_summary r
unfolding strip_usn_leaf_files recount_summary
strip_fixed r h = rw (h.0, h.1, h.2) refl

stripped : (r : Result) → StripsTo (strip_usn_leaf_files r).files (strip_usn_leaf_files r).files
unfolding strip_usn_leaf_files
stripped r = (
  keep-keep is_usn_leaf_file r.files.added,
  keep-keep is_usn_leaf_file r.files.removed,
  keep-keep is_usn_leaf_modified r.files.modified,
)

dropped_none : (s : RegistrySection) → dropped_entries s s ≡ 0
unfolding dropped_entries
dropped_none s = omega arith

module _ (url_host : Text → Option Text) (domains files registry : Option (List Text)) where
  abbrev quiet : Result → Result
  quiet = without_noise url_host domains files registry

  quiet_stripped :
      (r : Result)
      → StripsTo (quiet (strip_usn_leaf_files r)).files (quiet (strip_usn_leaf_files r)).files
  unfolding strip_usn_leaf_files without_noise filter_files
  quiet_stripped r = (
    keep-again is_usn_leaf_file (λ f. is_file_noise_patterns f files) r.files.added,
    keep-again is_usn_leaf_file (λ f. is_file_noise_patterns f files) r.files.removed,
    keep-again is_usn_leaf_modified (λ m. is_modified_noise m files) r.files.modified,
  )

  files_twice :
      (c : Changes)
      → filter_files url_host domains files registry
          (filter_files url_host domains files registry c)
        ≡ filter_files url_host domains files registry c
  unfolding filter_files
  files_twice c =
      rw
        (
          keep-keep (λ f. is_file_noise_patterns f files) c.added,
          keep-keep (λ f. is_file_noise_patterns f files) c.removed,
          keep-keep (λ m. is_modified_noise m files) c.modified,
        )
        refl

  registry_twice :
      (s : RegistrySection)
      → filter_registry url_host domains files registry
          (filter_registry url_host domains files registry s)
        ≡ filter_registry url_host domains files registry s
  unfolding filter_registry
  registry_twice s =
      rw
        (
          keep-keep (λ e. is_registry_noise e.k registry) s.added,
          keep-keep (λ e. is_registry_noise e.k registry) s.removed,
          keep-keep (λ e. is_registry_noise e.key registry) s.modified,
        )
        refl

  dropped_twice :
      (s : RegistrySection)
      → let kept = filter_registry url_host domains files registry s in
        dropped_entries kept (filter_registry url_host domains files registry kept) ≡ 0
  dropped_twice s =
      let kept = filter_registry url_host domains files registry s in
      ap (dropped_entries kept) (registry_twice s) ∙ dropped_none kept

  module _ (s : Summary) (f : Changes) (g : RegistrySection) (y : List Event) where
    quiet_of :
        (u : Option UsnSection) (n : Option NetworkSection)
        → let r : Result = record {
          summary = s;
          files = f;
          registry = g;
          sysmon = y;
          usn = u;
          network = n;
        } in
          quiet (recount_summary (quiet r)) ≡ recount_summary (quiet r)
    unfolding without_noise recount_summary filter_usn filter_network
    quiet_of none none =
        rw
          (
            files_twice f,
            dropped_twice g,
            registry_twice g,
            keep-keep (λ e. is_sysmon_noise url_host e domains files) y,
          )
          refl
    quiet_of none (some n) =
        rw
          (
            files_twice f,
            dropped_twice g,
            registry_twice g,
            keep-keep (λ e. is_sysmon_noise url_host e domains files) y,
            keep-keep (λ e. is_network_dns_noise url_host e domains) n.dns,
            keep-keep (λ e. is_network_request_noise url_host e domains) n.requests,
          )
          refl
    quiet_of (some u) none =
        rw
          (
            files_twice f,
            dropped_twice g,
            registry_twice g,
            keep-keep (λ e. is_sysmon_noise url_host e domains files) y,
            keep-keep (λ e. is_usn_noise e files) u.events,
          )
          refl
    quiet_of (some u) (some n) =
        rw
          (
            files_twice f,
            dropped_twice g,
            registry_twice g,
            keep-keep (λ e. is_sysmon_noise url_host e domains files) y,
            keep-keep (λ e. is_usn_noise e files) u.events,
            keep-keep (λ e. is_network_dns_noise url_host e domains) n.dns,
            keep-keep (λ e. is_network_request_noise url_host e domains) n.requests,
          )
          refl

  quiet_twice : (r : Result) → quiet (recount_summary (quiet r)) ≡ recount_summary (quiet r)
  quiet_twice r = quiet_of r.summary r.files r.registry r.sysmon r.usn r.network

  -- The result of FilterResultWith, given to it once more with the same lists and the same choice,
  -- comes back as it is: the second run hides nothing more and counts no entry as filtered again.
  pub filter_result_with-twice :
      (o : Option Result) (hide_noise : Bool)
      → let run =
          λ (x : Option Result). filter_result_with url_host domains files registry x hide_noise in
        run (run o) ≡ run o
  unfolding filter_result_with
  filter_result_with-twice none hide_noise = refl
  filter_result_with-twice (some r) false =
      let out = strip_usn_leaf_files r in
      ap (λ x. some (recount_summary x)) (strip_fixed out (stripped r))
      ∙ ap some (recount_twice out)
  filter_result_with-twice (some r) true =
      let out = quiet (strip_usn_leaf_files r) in
      ap (λ x. some (recount_summary (quiet x))) (strip_fixed out (quiet_stripped r))
      ∙ ap (λ x. some (recount_summary x)) (quiet_twice (strip_usn_leaf_files r))
      ∙ ap some (recount_twice out)
