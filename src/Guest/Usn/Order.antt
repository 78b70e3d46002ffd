-- ===== src/Guest/Usn/Order.antt =====
-- FinalizeUSNEvents: what is left out of a sidecar that would grow too large.
use quarantine_lab.Prelude.{
  ℕ, zero, suc, ◌+◌, ◌-◌, ◌≤◌, ◌≡◌, refl, sym, ap, ◌∙◌, true, false, Option, List, [], ◌∷◌, ◌++◌,
  arith, Bool-cases, inl, inr, length, length-append, take, drop,
}
use quarantine_lab.Prelude.Text.{Text}
use quarantine_lab.Guest.Noise.{file_priority}
use quarantine_lab.Guest.Usn.{
  Event, Host, event_less, insert_event, sort_events, values, usn_loop, max_usn_sidecar_events,
  Finalized, finalize_usn_events,
}

abbrev pub priority : Host → Event → ℕ
priority h e = file_priority h.clean h.base e.path

-- No element comes before a priority.
abbrev pub NoneBelow : Host → ℕ → List Event → Type 0
NoneBelow h n [] = Unit
NoneBelow h n (e ∷ es) = (n ≤ priority h e) × NoneBelow h n es

abbrev Ordered : Host → List Event → Type 0
Ordered h [] = Unit
Ordered h (e ∷ es) = NoneBelow h (priority h e) es × Ordered h es

-- Each element of the first list has a priority as good as any of the second.
abbrev pub AllBefore : Host → List Event → List Event → Type 0
AllBefore h [] fs = Unit
AllBefore h (e ∷ es) fs = NoneBelow h (priority h e) fs × AllBefore h es fs

module _ (h : Host) where
  event_less-le : (a b : Event) → event_less h a b ≡ true → priority h a ≤ priority h b
  unfolding event_less
  event_less-le a b l = ground arith

  event_less-ge : (a b : Event) → event_less h a b ≡ false → priority h b ≤ priority h a
  unfolding event_less
  event_less-ge a b l = ground arith

  NoneBelow-le : (m n : ℕ) (es : List Event) → m ≤ n → NoneBelow h n es → NoneBelow h m es
  NoneBelow-le m n [] l a = tt
  NoneBelow-le m n (e ∷ es) l a = (omega (arith, a.0), NoneBelow-le m n es l a.1)

  NoneBelow-insert_event :
      (n : ℕ) (e : Event) (es : List Event)
      → n ≤ priority h e
      → NoneBelow h n es
      → NoneBelow h n (insert_event h e es)
  unfolding insert_event
  NoneBelow-insert_event n e [] l a = (l, tt)
  NoneBelow-insert_event n e (f ∷ fs) l a = elim (Bool-cases (event_less h f e)) [
    | inl after ↦ rw after (a.0, NoneBelow-insert_event n e fs l a.1)
    | inr front ↦ rw front (l, a)
  ]

  Ordered-insert_event :
      (e : Event) (es : List Event) → Ordered h es → Ordered h (insert_event h e es)
  unfolding insert_event
  Ordered-insert_event e [] o = (tt, tt)
  Ordered-insert_event e (f ∷ fs) o = elim (Bool-cases (event_less h f e)) [
    | inl after ↦ rw after (
      NoneBelow-insert_event (priority h f) e fs (event_less-le f e after) o.0,
      Ordered-insert_event e fs o.1,
    )
    | inr front ↦
        let first = event_less-ge f e front in
        rw front ((first, NoneBelow-le (priority h e) (priority h f) fs first o.0), o)
  ]

  Ordered-sort_events : (es : List Event) → Ordered h (sort_events h es)
  unfolding sort_events
  Ordered-sort_events [] = tt
  Ordered-sort_events (e ∷ es) = Ordered-insert_event e (sort_events h es) (Ordered-sort_events es)

  length-insert_event :
      (e : Event) (es : List Event) → length (insert_event h e es) ≡ suc (length es)
  unfolding insert_event
  length-insert_event e [] = refl
  length-insert_event e (f ∷ fs) = ground (arith, length-insert_event e fs)

  length-sort_events : (es : List Event) → length (sort_events h es) ≡ length es
  unfolding sort_events
  length-sort_events [] = refl
  length-sort_events (e ∷ es) =
      length-insert_event e (sort_events h es) ∙ ap suc (length-sort_events es)

  NoneBelow-drop : (n k : ℕ) (es : List Event) → NoneBelow h n es → NoneBelow h n (drop k es)
  NoneBelow-drop n zero es a = a
  NoneBelow-drop n (suc k) [] a = tt
  NoneBelow-drop n (suc k) (e ∷ es) a = NoneBelow-drop n k es a.1

  AllBefore-take-drop :
      (k : ℕ) (es : List Event) → Ordered h es → AllBefore h (take k es) (drop k es)
  AllBefore-take-drop zero es o = tt
  AllBefore-take-drop (suc k) [] o = tt
  AllBefore-take-drop (suc k) (e ∷ es) o =
      (NoneBelow-drop (priority h e) k es o.0, AllBefore-take-drop k es o.1)

  take-append-drop : (k : ℕ) (es : List Event) → take k es ++ drop k es ≡ es
  take-append-drop zero es = refl
  take-append-drop (suc k) [] = refl
  take-append-drop (suc k) (e ∷ es) = ap (λ t. e ∷ t) (take-append-drop k es)

  length-take-le : (k : ℕ) (es : List Event) → length (take k es) ≤ k
  length-take-le zero es = omega arith
  length-take-le (suc k) [] = omega arith
  length-take-le (suc k) (e ∷ es) = omega (arith, length-take-le k es)

  length-drop_events : (k : ℕ) (es : List Event) → length (drop k es) ≡ length es - k
  length-drop_events zero es = omega arith
  length-drop_events (suc k) [] = omega arith
  length-drop_events (suc k) (e ∷ es) = omega (arith, length-drop_events k es)

  length-cut :
      (k : ℕ) (es : List Event)
      → length (take k (sort_events h es)) + length (drop k (sort_events h es)) ≡ length es
  length-cut k es =
      sym (length-append {0} (take k (sort_events h es)) (drop k (sort_events h es)))
      ∙ ap length (take-append-drop k (sort_events h es))
      ∙ length-sort_events es

  -- How a result of FinalizeUSNEvents divides the entries: those kept and those left out.
  pub record IsCut (entries : List Event) (r : Finalized) (dropped : List Event) : Type 0 where
    pub all : r.kept ++ dropped ≡ sort_events h entries
    pub entry_count : length r.kept + length dropped ≡ length entries
    pub at_most : length r.kept ≤ max_usn_sidecar_events
    pub counted : length dropped ≡ r.truncated
    pub best_kept : AllBefore h r.kept dropped

  -- The result keeps at most 4000 entries, in the sorted order. The others are counted as truncated,
  -- and none of them has a better priority than an entry that is kept.
  pub finalize_usn_events-IsCut :
      (volume : Text) (events : List (Option Event)) (start : ℕ) (floor : Option ℕ)
      → let entries =
          values
            (usn_loop h volume start floor
              (record { merged = []; noise = []; skipped_before_start = 0 })
              events).merged in
        (dropped : List Event) × IsCut entries
          (finalize_usn_events h volume events start floor)
          dropped
  unfolding finalize_usn_events
  finalize_usn_events-IsCut volume events start floor =
      let entries =
        values
          (usn_loop h volume start floor
            (record { merged = []; noise = []; skipped_before_start = 0 }) events).merged in
      (
        drop max_usn_sidecar_events (sort_events h entries),
        record {
          all = take-append-drop max_usn_sidecar_events (sort_events h entries);
          entry_count = length-cut max_usn_sidecar_events entries;
          at_most = length-take-le max_usn_sidecar_events (sort_events h entries);
          counted = length-drop_events max_usn_sidecar_events (sort_events h entries);
          best_kept =
              AllBefore-take-drop max_usn_sidecar_events (sort_events h entries)
                (Ordered-sort_events entries);
        },
      )
