-- ===== src/Compare/Hkcu.antt =====
-- go/internal/diff/engine.go: suppressFalseHKCUDiff. When the user hives of one side were not captured,
-- their entries are no news.
use quarantine_lab.Prelude.{
  ℕ, suc, ◌-◌, ◌≡◌, ◌↔◌, ◌≤◌, refl, inl, inr, ◌⊎◌, Bool, true, false, ◌&&◌, ◌||◌, not, List, [],
  ◌∷◌, ◌++◌, ◌==◌, arith, Bool-cases, if◌then◌else◌, length, leb, ltb,
}
use quarantine_lab.Prelude.Text.{
  Text, codes, text_eq, to_upper, has_part, replace_char, itoa, trim_space,
}
use quarantine_lab.Prelude.Contains.{Contains, has_part_iff}
use quarantine_lab.Compare.Filter.{RegistryEntry, RegistrySection, keep}
use quarantine_lab.Compare.Filtered.{keep-keep}

-- evidence.Manifest, as far as suppressFalseHKCUDiff reads it
pub record Manifest : Type 0 where
  pub snapshot : Text
  pub registry : List RegistryEntry
  pub user_registry_warn : List Text

-- isInteractiveUserHKU
unfoldable pub is_interactive_user_hku : Text → Bool
unfolding to_upper replace_char has_part
is_interactive_user_hku key =
    let u = to_upper (replace_char b'/' b'\\' key) in
    has_part u (codes "HKU:\\S-1-5-21-") || has_part u (codes "HKU\\S-1-5-21-")

-- countInteractiveHKU
unfoldable pub count_interactive_hku : List RegistryEntry → ℕ
unfolding is_interactive_user_hku
count_interactive_hku [] = 0
count_interactive_hku (e ∷ es) =
    let n = count_interactive_hku es in if is_interactive_user_hku e.k then suc n else n

-- hkcuCaptureFailed
unfoldable pub hkcu_capture_failed : Manifest → Bool
hkcu_capture_failed m = ltb 0 (length m.user_registry_warn)

-- One side has no user entries where the other has fifty or more.
unfoldable pub is_absent : Bool → ℕ → ℕ → Bool
is_absent fail own other = not fail && (own == 0 && leb 50 other)

unfoldable pub right_failed : Manifest → Manifest → Bool
unfolding hkcu_capture_failed is_absent count_interactive_hku
right_failed left right =
    hkcu_capture_failed right
    || is_absent (hkcu_capture_failed right) (count_interactive_hku right.registry)
        (count_interactive_hku left.registry)

unfoldable pub left_failed : Manifest → Manifest → Bool
unfolding hkcu_capture_failed is_absent count_interactive_hku
left_failed left right =
    hkcu_capture_failed left
    || is_absent (hkcu_capture_failed left) (count_interactive_hku left.registry)
        (count_interactive_hku right.registry)

-- uniqueStrings, with the texts met so far
unfoldable pub unique_from : List Text → List Text → List Text
unfolding trim_space
unique_from seen [] = []
unique_from seen (s ∷ ss) =
    let t = trim_space s in
    if text_eq t [] || listed t seen then unique_from seen ss else t ∷ unique_from (t ∷ seen) ss
  where
    listed : Text → List Text → Bool
    listed t [] = false
    listed t (u ∷ us) = text_eq t u || listed t us

-- The messages of the two tests for an absent hive
unfoldable pub absent_warning : Text → Text → Text → ℕ → Text → Text
unfolding itoa
absent_warning side snapshot other n what =
    codes "Payload HKCU absent on "
    ++ (side
        ++ (codes " ("
            ++ (snapshot
                ++ (codes ") while "
                    ++ (other
                        ++ (codes " has "
                            ++ (itoa n
                                ++ (codes " user entries — treating as capture miss, not mass "
                                    ++ what))))))))

unfoldable pub when : Bool → Text → List Text
when b t = if b then t ∷ [] else []

-- strings.Join(ws, "; ")
unfoldable pub join_warnings : List Text → Text
join_warnings [] = []
join_warnings (w ∷ []) = w
join_warnings (w ∷ (v ∷ ws)) = w ++ (codes "; " ++ join_warnings (v ∷ ws))

unfoldable pub suppressed_warning : ℕ → Text → Text
unfolding itoa
suppressed_warning n what =
    codes "Suppressed " ++ (itoa n ++ (codes " false payload-HKCU " ++ what))

pub record Suppressed : Type 0 where
  pub section : RegistrySection
  pub warnings : List Text

-- suppressFalseHKCUDiff
unfoldable pub suppress_false_hkcu_diff : Manifest → Manifest → RegistrySection → Suppressed
unfolding is_interactive_user_hku count_interactive_hku hkcu_capture_failed is_absent right_failed
    left_failed unique_from absent_warning when join_warnings suppressed_warning keep
suppress_false_hkcu_diff left right s =
    let left_hku = count_interactive_hku left.registry in
    let right_hku = count_interactive_hku right.registry in
    let drop_right = right_failed left right && ltb 0 left_hku in
    let drop_left = left_failed left right && ltb 0 right_hku in
    let removed =
      if drop_right then keep (λ e. is_interactive_user_hku e.k) s.removed else s.removed in
    let added = if drop_left then keep (λ e. is_interactive_user_hku e.k) s.added else s.added in
    let modified =
      if drop_right then keep (λ m. is_interactive_user_hku m.key) s.modified else s.modified in
    record {
      section = record {
        added = added;
        removed = removed;
        modified =
            if drop_left then keep (λ m. is_interactive_user_hku m.key) modified else modified;
      };
      warnings = unique_from [] (
          when (is_absent (hkcu_capture_failed right) right_hku left_hku)
            (absent_warning (codes "To") right.snapshot (codes "From") left_hku (codes "delete"))
          ++ (when (is_absent (hkcu_capture_failed left) left_hku right_hku)
                (absent_warning (codes "From") left.snapshot (codes "To") right_hku (codes "add"))
              ++ (when (drop_right && ltb 0 (length s.removed - length removed)) (
                    suppressed_warning (length s.removed - length removed)
                      (codes "removals (To snapshot HKCU capture unavailable)"))
                  ++ (when (drop_left && ltb 0 (length s.added - length added)) (
                        suppressed_warning (length s.added - length added)
                          (codes "additions (From snapshot HKCU capture unavailable)"))
                      ++ (when (left_failed left right && ltb 0 (length left.user_registry_warn))
                            (codes "From snapshot: " ++ join_warnings left.user_registry_warn)
                          ++ when
                              (right_failed left right && ltb 0 (length right.user_registry_warn))
                              (codes "To snapshot: "
                                ++ join_warnings right.user_registry_warn))))));
    }

-- The entries of the hives that are not an interactive user's
abbrev pub shared : RegistrySection → RegistrySection
shared s = record {
  added = keep (λ e. is_interactive_user_hku e.k) s.added;
  removed = keep (λ e. is_interactive_user_hku e.k) s.removed;
  modified = keep (λ m. is_interactive_user_hku m.key) s.modified;
}

keep_if :
    {A : Type 0} (p : A → Bool) (b : Bool) (xs : List A)
    → keep p (if b then keep p xs else xs) ≡ keep p xs
keep_if p true xs = keep-keep p xs
keep_if p false xs = refl

or_false : (a b : Bool) → (a || b) ≡ false → (a ≡ false) × (b ≡ false)
or_false a b h = ground arith

quiet :
    (left right : Manifest) (s : RegistrySection)
    → left_failed left right ≡ false
    → right_failed left right ≡ false
    → is_absent
        (hkcu_capture_failed left)
        (count_interactive_hku left.registry)
        (count_interactive_hku right.registry)
      ≡ false
    → is_absent
        (hkcu_capture_failed right)
        (count_interactive_hku right.registry)
        (count_interactive_hku left.registry)
      ≡ false
    → suppress_false_hkcu_diff left right s ≡ record { section = s; warnings = [] }
unfolding suppress_false_hkcu_diff when unique_from
quiet left right s a b c d = rw (a, b, c, d) refl

no_failure :
    (left right : Manifest) (s : RegistrySection)
    → (left_failed left right || right_failed left right) ≡ false
    → suppress_false_hkcu_diff left right s ≡ record { section = s; warnings = [] }
unfolding left_failed right_failed
no_failure left right s h =
    let f = or_false (left_failed left right) (right_failed left right) h in
    quiet left right s f.0 f.1 (or_false (hkcu_capture_failed left) _ f.0).1
      (or_false (hkcu_capture_failed right) _ f.1).1

-- A key of a hive of an interactive user: with capitals and backslashes, it has the root of such hives.
abbrev pub UserKey : Text → Type 0
UserKey key =
    let u = to_upper (replace_char b'/' b'\\' key) in
    Contains u (codes "HKU:\\S-1-5-21-") ⊎ Contains u (codes "HKU\\S-1-5-21-")

either : (a b : Bool) → (a || b) ≡ true → (a ≡ true) ⊎ (b ≡ true)
either true b h = inl refl
either false b h = inr h

or_true : (a b : Bool) → (a ≡ true) ⊎ (b ≡ true) → (a || b) ≡ true
or_true a b h = ground arith

is_interactive_user_hku_iff : (key : Text) → (is_interactive_user_hku key ≡ true) ↔ UserKey key
unfolding is_interactive_user_hku
is_interactive_user_hku_iff key =
    let u = to_upper (replace_char b'/' b'\\' key) in
    let p = has_part_iff u (codes "HKU:\\S-1-5-21-") in
    let q = has_part_iff u (codes "HKU\\S-1-5-21-") in
    (
      λ h. elim (either _ _ h) [ inl e ↦ inl (p.0 e) | inr e ↦ inr (q.0 e) ],
      λ h. elim h [ inl e ↦ or_true _ _ (inl (p.1 e)) | inr e ↦ or_true _ _ (inr (q.1 e)) ],
    )

-- The user hives of one side were not captured: the guest warned, or there is no entry of a user where
-- the other side has fifty or more.
abbrev pub Failed : Manifest → Manifest → Type 0
Failed own other =
    (1 ≤ length own.user_registry_warn)
    ⊎ ((count_interactive_hku own.registry ≡ 0) × (50 ≤ count_interactive_hku other.registry))

absent_test :
    (own other warnings : ℕ)
    → (ltb 0 warnings || is_absent (ltb 0 warnings) own other) ≡ true
    → (1 ≤ warnings) ⊎ ((own ≡ 0) × (50 ≤ other))
unfolding is_absent
absent_test own other warnings h = ground arith

right_failed-Failed : (left right : Manifest) → right_failed left right ≡ true → Failed right left
unfolding right_failed hkcu_capture_failed
right_failed-Failed left right h =
    absent_test (count_interactive_hku right.registry) (count_interactive_hku left.registry)
      (length right.user_registry_warn) h

left_failed-Failed : (left right : Manifest) → left_failed left right ≡ true → Failed left right
unfolding left_failed hkcu_capture_failed
left_failed-Failed left right h =
    absent_test (count_interactive_hku left.registry) (count_interactive_hku right.registry)
      (length left.user_registry_warn) h

some_side :
    (left right : Manifest)
    → (left_failed left right || right_failed left right) ≡ true
    → Failed left right ⊎ Failed right left
some_side left right h = elim (Bool-cases (left_failed left right)) [
  | inl l ↦ inl (left_failed-Failed left right l)
  | inr l ↦ inr (right_failed-Failed left right (rw l at h))
]

-- suppressFalseHKCUDiff leaves every entry where it was but those of the hives of interactive users, which
-- are told by the root in their key, in any case and with either slash. And it only acts on a failed
-- capture: either the guest warned of the user hives of a side, or a side has no entry of a user where the
-- other has at least fifty, or else nothing is dropped and nothing is said.
pub suppress_false_hkcu_diff-shared :
    (left right : Manifest) (s : RegistrySection)
    → (shared (suppress_false_hkcu_diff left right s).section ≡ shared s)
      × ((key : Text) → (is_interactive_user_hku key ≡ true) ↔ UserKey key)
      × ((Failed left right ⊎ Failed right left)
          ⊎ (suppress_false_hkcu_diff left right s ≡ record { section = s; warnings = [] }))
unfolding suppress_false_hkcu_diff
suppress_false_hkcu_diff-shared left right s =
    let l = left_failed left right && ltb 0 (count_interactive_hku right.registry) in
    let r = right_failed left right && ltb 0 (count_interactive_hku left.registry) in
    (
      rw
          (
            keep_if (λ e. is_interactive_user_hku e.k) l s.added,
            keep_if (λ e. is_interactive_user_hku e.k) r s.removed,
            keep_if (λ m. is_interactive_user_hku m.key) l
                (if r then keep (λ m. is_interactive_user_hku m.key) s.modified else s.modified),
            keep_if (λ m. is_interactive_user_hku m.key) r s.modified,
          )
          refl,
      is_interactive_user_hku_iff,
      elim (Bool-cases (left_failed left right || right_failed left right)) [
        | inl h ↦ inl (some_side left right h)
        | inr h ↦ inr (no_failure left right s h)
      ],
    )
