-- ===== src/Guest/Usn/Merge.antt =====
-- FinalizeUSNEvents: the entry of a path carries the net change of the path's events.
use quarantine_lab.Prelude.{
  ℕ, ◌≡◌, refl, false≢true, sym, ap, ◌∙◌, Bool, true, false, Option, none, some, List, [], ◌∷◌,
  if◌then◌else◌, arith, Bool-cases, inl, inr,
}
use quarantine_lab.Prelude.Text.{Text, text_eq, to_lower, text_eq→eq, text_eq_self}
use quarantine_lab.Guest.Usn.{
  Kind, net_usn_kind, usn_change_kind, Event, Merged, NoiseKey, Acc, join, upsert, Host,
  resolved_path, before_floor, before_start, add_event, usn_step, usn_loop,
}

-- The change of a path's entry
unfoldable pub change_of : Text → Merged → Option Kind
change_of k [] = none
change_of k ((j, e) ∷ m) = if text_eq j k then some e.change else change_of k m

abbrev pub net_with : Option Kind → Kind → Kind
net_with none kind = kind
net_with (some prev) kind = net_usn_kind prev kind

-- Two keys that differ are not both equal to a third.
apart : (j k q : Text) → text_eq j k ≡ false → text_eq j q ≡ true → text_eq k q ≡ false
apart j k q d e = elim (Bool-cases (text_eq k q)) [
  | inl same ↦
      let jk : j ≡ k = text_eq→eq j q e ∙ sym (text_eq→eq k q same) in
      absurd (false≢true (sym d ∙ ap (λ t. text_eq t k) jk ∙ text_eq_self k))
  | inr differs ↦ differs
]

change_of-upsert :
    (k q : Text) (ev fresh : Event) (kind : Kind) (path : Text) (m : Merged)
    → fresh.change ≡ kind
    → change_of q (upsert k (λ old. join old ev kind path) fresh m)
      ≡ (if text_eq k q then some (net_with (change_of k m) kind) else change_of q m)
unfolding change_of upsert join
change_of-upsert k q ev fresh kind path [] f = ground arith
change_of-upsert k q ev fresh kind path ((j, e) ∷ m) f = elim (Bool-cases (text_eq j k)) [
  | inl same ↦
      rw (same, upsert)
        (rw (text_eq→eq j k same)
          (at_head (text_eq k q) (net_usn_kind e.change kind) e.change (change_of q m)))
  | inr other ↦ elim (Bool-cases (text_eq j q)) [
    | inl here ↦ rw (other, upsert) (rw (here, apart j k q other here))
    | inr there ↦ rw (other, upsert) (rw there (change_of-upsert k q ev fresh kind path m f))
  ]
]
  where
    at_head :
        (b : Bool) (x y : Kind) (z : Option Kind)
        → (if b then some x else z) ≡ (if b then some x else if b then some y else z)
    at_head true x y z = refl
    at_head false x y z = refl

-- What one event adds: the path in lower case and the change, or nothing where the event lies before
-- the start or the time floor, or its path is not known.
abbrev pub contribution : Host → Text → ℕ → Option ℕ → Option Event → Option (Text × Kind)
contribution h volume start floor none = none
contribution h volume start floor (some ev) =
    if before_start start ev
    then none
    else if before_floor h floor ev
    then none
    else if text_eq (resolved_path h volume ev) []
    then none
    else some (to_lower (resolved_path h volume ev), usn_change_kind ev.reasons)

abbrev pub add_change : Text → Option (Text × Kind) → Option Kind → Option Kind
add_change k none change = change
add_change k (some (j, kind)) change = if text_eq j k then some (net_with change kind) else change

-- The net change of a path over the journal, in the journal's order.
unfoldable pub net_change :
    Host → Text → ℕ → Option ℕ → Text → List (Option Event) → Option Kind → Option Kind
net_change h volume start floor k [] change = change
net_change h volume start floor k (ev ∷ evs) change =
    net_change h volume start floor k evs
      (add_change k (contribution h volume start floor ev) change)

step_choice :
    (k : Text) (a b c : Bool) (x1 x2 x3 x4 : Acc) (y : Option (Text × Kind)) (d : Option Kind)
    → change_of k x1.merged ≡ d
    → change_of k x2.merged ≡ d
    → change_of k x3.merged ≡ d
    → change_of k x4.merged ≡ add_change k y d
    → change_of k (if a then x1 else if b then x2 else if c then x3 else x4).merged
      ≡ add_change k (if a then none else if b then none else if c then none else y) d
step_choice k true b c x1 x2 x3 x4 y d e1 e2 e3 e4 = e1
step_choice k false true c x1 x2 x3 x4 y d e1 e2 e3 e4 = e2
step_choice k false false true x1 x2 x3 x4 y d e1 e2 e3 e4 = e3
step_choice k false false false x1 x2 x3 x4 y d e1 e2 e3 e4 = e4

same_key :
    (j k : Text) (m : Merged) (kind : Kind) (z : Option Kind)
    → (if text_eq j k then some (net_with (change_of j m) kind) else z)
      ≡ (if text_eq j k then some (net_with (change_of k m) kind) else z)
same_key j k m kind z = elim (Bool-cases (text_eq j k)) [
  | inl same ↦ rw (text_eq→eq j k same)
  | inr differs ↦ rw differs
]

add_event-change :
    (h : Host) (k : Text) (ev : Event) (path : Text) (acc : Acc)
    → change_of k (add_event h ev path acc).merged
      ≡ add_change k (some (to_lower path, usn_change_kind ev.reasons)) (change_of k acc.merged)
unfolding add_event
add_event-change h k ev path acc =
    let kind = usn_change_kind ev.reasons in
    change_of-upsert (to_lower path) k ev (record ev { path = path; change = kind }) kind path
      acc.merged refl
    ∙ same_key (to_lower path) k acc.merged kind (change_of k acc.merged)

module _ (h : Host) (volume : Text) (start : ℕ) (floor : Option ℕ) (k : Text) where
  usn_step-change :
      (acc : Acc) (ev : Option Event)
      → change_of k (usn_step h volume start floor acc ev).merged
        ≡ add_change k (contribution h volume start floor ev) (change_of k acc.merged)
  unfolding usn_step
  usn_step-change acc none = refl
  usn_step-change acc (some ev) =
      step_choice k (before_start start ev) (before_floor h floor ev)
        (text_eq (resolved_path h volume ev) []) _ _ _ _ _ (change_of k acc.merged) refl refl refl
        (add_event-change h k ev (resolved_path h volume ev) acc)

  usn_loop-change :
      (acc : Acc) (evs : List (Option Event))
      → change_of k (usn_loop h volume start floor acc evs).merged
        ≡ net_change h volume start floor k evs (change_of k acc.merged)
  unfolding usn_loop net_change
  usn_loop-change acc [] = refl
  usn_loop-change acc (ev ∷ evs) =
      usn_loop-change (usn_step h volume start floor acc ev) evs
      ∙ ap (net_change h volume start floor k evs) (usn_step-change acc ev)

  -- From an empty table, the entry of a path exists exactly if one of its events counts, and its change
  -- is the net change of those events in the journal's order.
  pub usn_loop-net_change :
      (noise : List NoiseKey) (skipped : ℕ) (evs : List (Option Event))
      → change_of k
          (usn_loop h volume start floor
            (record { merged = []; noise = noise; skipped_before_start = skipped })
            evs).merged
        ≡ net_change h volume start floor k evs none
  unfolding change_of
  usn_loop-net_change noise skipped evs =
      usn_loop-change (record { merged = []; noise = noise; skipped_before_start = skipped }) evs
