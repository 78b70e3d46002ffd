-- ===== src/Compare/Filtered.antt =====
-- FilterResultWith: its counts, what becomes of the registry entries, and a second run.
use quarantine_lab.Prelude.{
  ℕ, ◌+◌, ◌≤◌, ◌≡◌, refl, ap, ◌∙◌, Bool, true, false, Option, none, some, List, [], ◌∷◌, arith,
  Bool-cases, inl, inr, if◌then◌else◌, length, ltb,
}
use quarantine_lab.Prelude.Text.{Text}
use quarantine_lab.Compare.{Changes}
use quarantine_lab.Compare.Noise.{Event, is_registry_noise}
use quarantine_lab.Compare.Filter.{
  RegistrySection, UsnSection, NetworkSection, Summary, Result, keep, strip_usn_leaf_files,
  recount_summary, filter_registry, dropped_entries, without_noise, filter_result_with,
}

abbrev pub registry_entries : Result → ℕ
registry_entries r =
    length r.registry.added + length r.registry.removed + length r.registry.modified

-- The network counts are those of the lists, where there are some.
abbrev pub NetworkCounts : Option NetworkSection → Summary → Type 0
NetworkCounts none s = Unit
NetworkCounts (some n) s = (s.dns_queries ≡ length n.dns) × (s.network_requests ≡ length n.requests)

abbrev pub UsnCounts : Option UsnSection → Type 0
UsnCounts none = Unit
UsnCounts (some u) = u.event_count ≡ length u.events

-- The counts of files, of registry entries, of Sysmon events, and, where there are such sections, of the
-- network and of the journal are the lengths of their lists.
abbrev pub Counts : Result → Type 0
Counts r =
    (r.summary.files_added ≡ length r.files.added)
    × (r.summary.files_removed ≡ length r.files.removed)
    × (r.summary.files_modified ≡ length r.files.modified)
    × (r.summary.registry_added ≡ length r.registry.added)
    × (r.summary.registry_removed ≡ length r.registry.removed)
    × (r.summary.registry_modified ≡ length r.registry.modified)
    × (r.summary.sysmon_added ≡ length r.sysmon)
    × NetworkCounts r.network r.summary
    × UsnCounts r.usn

-- The counts that have no list here
abbrev pub other_counts : Summary → List ℕ
other_counts s =
    s.tasks_added ∷ s.tasks_removed ∷ s.tasks_modified ∷ s.tasks_volatile_only
    ∷ s.service_installs_added ∷ []

module _ {A : Type 0} where
  length-keep : (p : A → Bool) (xs : List A) → length (keep p xs) ≤ length xs
  unfolding keep
  length-keep p [] = omega arith
  length-keep p (x ∷ xs) = ground (arith, length-keep p xs)

  pub keep-keep : (p : A → Bool) (xs : List A) → keep p (keep p xs) ≡ keep p xs
  unfolding keep
  keep-keep p [] = refl
  keep-keep p (x ∷ xs) = elim (Bool-cases (p x)) [
    | inl h ↦ rw h (keep-keep p xs)
    | inr h ↦ rw (h, h) (ap (λ t. x ∷ t) (keep-keep p xs))
  ]

  keep_comm : (p q : A → Bool) (xs : List A) → keep p (keep q xs) ≡ keep q (keep p xs)
  unfolding keep
  keep_comm p q [] = refl
  keep_comm p q (x ∷ xs) = elim (Bool-cases (p x)) [
    | inl h ↦ elim (Bool-cases (q x)) [
      | inl k ↦ rw (h, k) (keep_comm p q xs)
      | inr k ↦ rw (k, h) (keep_comm p q xs)
    ]
    | inr h ↦ elim (Bool-cases (q x)) [
      | inl k ↦ rw (k, h) (rw k (keep_comm p q xs))
      | inr k ↦ rw (k, h, k) (ap (λ t. x ∷ t) (keep_comm p q xs))
    ]
  ]

  pub keep-again : (p q : A → Bool) (xs : List A) → keep p (keep q (keep p xs)) ≡ keep q (keep p xs)
  keep-again p q xs = keep_comm p q (keep p xs) ∙ ap (keep q) (keep-keep p xs)

module _ (s : Summary) (f : Changes) (g : RegistrySection) (y : List Event) where
  recount_parts :
      (u : Option UsnSection) (n : Option NetworkSection)
      → Counts (
          recount_summary
            (record { summary = s; files = f; registry = g; sysmon = y; usn = u; network = n }))
  unfolding recount_summary
  recount_parts none none = (refl, refl, refl, refl, refl, refl, refl, tt, tt)
  recount_parts none (some n) = (refl, refl, refl, refl, refl, refl, refl, (refl, refl), tt)
  recount_parts (some u) none = (refl, refl, refl, refl, refl, refl, refl, tt, refl)
  recount_parts (some u) (some n) = (refl, refl, refl, refl, refl, refl, refl, (refl, refl), refl)

  recount_of :
      (u : Option UsnSection) (n : Option NetworkSection)
      → let r : Result = record {
        summary = s;
        files = f;
        registry = g;
        sysmon = y;
        usn = u;
        network = n;
      } in
        recount_summary (recount_summary r) ≡ recount_summary r
  unfolding recount_summary
  recount_of none none = refl
  recount_of none (some n) = refl
  recount_of (some u) none = refl
  recount_of (some u) (some n) = refl

recount_summary-Counts : (r : Result) → Counts (recount_summary r)
recount_summary-Counts r = recount_parts r.summary r.files r.registry r.sysmon r.usn r.network

pub recount_twice : (r : Result) → recount_summary (recount_summary r) ≡ recount_summary r
recount_twice r = recount_of r.summary r.files r.registry r.sysmon r.usn r.network

module _ (url_host : Text → Option Text) (domains files registry : Option (List Text)) where
  volatile_kept : (d v : ℕ) → (if ltb 0 d then v + d else v) ≡ v + d
  volatile_kept d v = ground arith

  without_noise-conserves :
      (r : Result)
      → let out = without_noise url_host domains files registry r in
        out.summary.registry_volatile_filtered + registry_entries out
        ≡ r.summary.registry_volatile_filtered + registry_entries r
  unfolding without_noise filter_registry dropped_entries
  without_noise-conserves r =
      let a = length-keep (λ e. is_registry_noise e.k registry) r.registry.added in
      let b = length-keep (λ e. is_registry_noise e.k registry) r.registry.removed in
      let c = length-keep (λ e. is_registry_noise e.key registry) r.registry.modified in
      rw (volatile_kept _ r.summary.registry_volatile_filtered) (omega (arith, a, b, c))

  -- FilterResultWith of a result gives a result in which the counts of files, registry entries and Sysmon
  -- events, and those of the network and of the journal where it has them, are the lengths of their
  -- lists, whether noise is hidden or not. The counts of tasks and of service installs stay what they
  -- were. No registry entry is lost from the counts: those listed and those counted as filtered are
  -- together as many as before.
  pub filter_result_with-Counts :
      (r : Result) (hide_noise : Bool)
      → (out : Result) × (filter_result_with url_host domains files registry (some r) hide_noise
          ≡ some out)
        × Counts out
        × (out.summary.registry_volatile_filtered + registry_entries out
            ≡ r.summary.registry_volatile_filtered + registry_entries r)
        × (other_counts out.summary ≡ other_counts r.summary)
  unfolding filter_result_with without_noise recount_summary strip_usn_leaf_files
  filter_result_with-Counts r false = (
    recount_summary (strip_usn_leaf_files r),
    refl,
    recount_summary-Counts (strip_usn_leaf_files r),
    refl,
    refl,
  )
  filter_result_with-Counts r true =
      let out = without_noise url_host domains files registry (strip_usn_leaf_files r) in
      (
        recount_summary out,
        refl,
        recount_summary-Counts out,
        without_noise-conserves (strip_usn_leaf_files r),
        refl,
      )
