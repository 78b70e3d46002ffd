-- ===== src/Guest/Journal/Bounds.antt =====
-- No record in a buffer makes the decoder read past it.
use quarantine_lab.Prelude.{
  ℕ, zero, suc, ◌+◌, ◌-◌, ◌≤◌, ◌<◌, ◌≡◌, refl, Bool, true, false, ◌&&◌, ◌||◌, not, Option, none,
  some, List, [], ◌∷◌, ◌==◌, ltb, leb, if◌then◌else◌, length, arith, length-append, Option-cases,
  inl, inr, ltb-ge, le→leb,
}
use quarantine_lab.Prelude.Bytes.{slice, le_value}
use quarantine_lab.Prelude.Text.{Text}
use quarantine_lab.Guest.Usn.{Event}
use quarantine_lab.Guest.Journal.{
  Outcome, returned, panicked, out_of_fuel, ◌>>=◌, sliced, FieldOffsets, usn_record_field_offsets,
  Platform, words, looks_like_usn_file_name, file_ref_from_record, parent_ref_from_record,
  record_event, named_event, known_event, decode_usn_record, with_event, aligned, parse_records,
  parse_usn_record_buffer,
}

-- A result is there, and has a property.
abbrev pub Returns : {A : Type 0} → (A → Type 0) → Outcome A → Type 0
Returns P (returned a) = P a
Returns P panicked = ⊥
Returns P out_of_fuel = ⊥

abbrev Anything : {A : Type 0} → A → Type 0
Anything a = Unit

Returns-sliced :
    {B : Type 0} (P : B → Type 0) (buf : List ℕ) (a b : ℕ) (f : List ℕ → Outcome B)
    → a ≤ b
    → b ≤ length buf
    → ((bs : List ℕ) → Returns P (f bs))
    → Returns P (sliced buf a b >>= f)
unfolding sliced
Returns-sliced P buf a b f h k r = rw (le→leb a b h, le→leb b (length buf) k) (r (slice a b buf))

Returns-bind :
    {A B : Type 0} (P : B → Type 0) (o : Outcome A) (f : A → Outcome B)
    → Returns Anything o
    → ((a : A) → Returns P (f a))
    → Returns P (o >>= f)
Returns-bind P (returned a) f h r = r a
Returns-bind P panicked f h r = h
Returns-bind P out_of_fuel f h r = h

Returns-if :
    {A : Type 0} (P : A → Type 0) (c : Bool) (x y : Outcome A)
    → (c ≡ true → Returns P x)
    → (c ≡ false → Returns P y)
    → Returns P (if c then x else y)
Returns-if P true x y h k = h refl
Returns-if P false x y h k = k refl

-- The fields that record_event reads lie in front of nameOffOff + 2.
abbrev Covers : FieldOffsets → ℕ → Type 0
Covers fo n =
    (fo.usn_off + 16 ≤ n)
    × (fo.reason_off + 4 ≤ n)
    × (fo.name_len_off + 2 ≤ n)
    × (fo.name_off_off + 2 ≤ n)
    × (40 ≤ n)

usn_record_field_offsets-Covers :
    (major n : ℕ) (fo : FieldOffsets)
    → usn_record_field_offsets major ≡ some fo
    → fo.name_off_off + 2 ≤ n
    → Covers fo n
unfolding usn_record_field_offsets
usn_record_field_offsets-Covers major n fo e h = ground (arith, e, h)

module _ (buf : List ℕ) (offset : ℕ) where
  file_ref_from_record-Returns :
      (major : ℕ)
      → offset + 40 ≤ length buf
      → Returns Anything (file_ref_from_record buf offset major)
  unfolding file_ref_from_record
  file_ref_from_record-Returns major h =
      Returns-if Anything (major == 2) _ _
        (λ v2.
          Returns-sliced Anything buf (offset + 8) (offset + 16) _ (omega arith) (omega (arith, h))
            (λ bs. tt))
        (λ other.
          Returns-if Anything (major == 3 || major == 4) _ _
            (λ v3.
              Returns-if {A = Text} Anything (ltb (length buf) (offset + 24)) (returned []) _
                (λ short. tt)
                (λ long.
                  Returns-sliced Anything buf (offset + 8) (offset + 24) _ (omega arith)
                    (omega (arith, h)) (λ bs. tt)))
            (λ unknown. tt))

  parent_ref_from_record-Returns :
      (major : ℕ)
      → offset + 40 ≤ length buf
      → Returns Anything (parent_ref_from_record buf offset major)
  unfolding parent_ref_from_record
  parent_ref_from_record-Returns major h =
      Returns-if Anything (major == 2) _ _
        (λ v2.
          Returns-sliced Anything buf (offset + 16) (offset + 24) _ (omega arith) (omega (arith, h))
            (λ bs. tt))
        (λ other.
          Returns-if Anything (major == 3 || major == 4) _ _
            (λ v3.
              Returns-if {A = Text} Anything (ltb (length buf) (offset + 40)) (returned []) _
                (λ short. tt)
                (λ long.
                  Returns-sliced Anything buf (offset + 24) (offset + 40) _ (omega arith)
                    (omega (arith, h)) (λ bs. tt)))
            (λ unknown. tt))

  module _ (w : Platform) (rec_len major : ℕ) (fo : FieldOffsets)
      (fits : offset + rec_len ≤ length buf) (c : Covers fo rec_len) where
    record_event-Returns :
        (usn reason : ℕ) (name : Text)
        → Returns Anything (record_event w buf offset major fo usn reason name)
    unfolding record_event
    record_event-Returns usn reason name =
        Returns-bind Anything _ _ (file_ref_from_record-Returns major (omega (arith, fits, c.4)))
          λ file_ref.
            Returns-bind Anything _ _
              (parent_ref_from_record-Returns major (omega (arith, fits, c.4)))
              λ parent_ref.
                Returns-sliced Anything buf (offset + fo.usn_off + 8) (offset + fo.usn_off + 16) _
                  (omega arith) (omega (arith, fits, c.0)) (λ bs. tt)

    named_event-Returns :
        (usn reason name_len name_off : ℕ)
        → Returns Anything (named_event w buf offset rec_len major fo usn reason name_len name_off)
    unfolding named_event
    named_event-Returns usn reason name_len name_off =
        Returns-if Anything (name_len == 0 || ltb (offset + rec_len) (offset + name_off + name_len))
          _ _ (λ bad. tt)
          λ good.
            Returns-sliced Anything buf (offset + name_off) (offset + name_off + name_len) _
              (omega arith) (name_end (ground (arith, good)))
              λ bs.
                Returns-if Anything (not (looks_like_usn_file_name (w.utf16_to_string (words bs))))
                  _ _ (λ odd. tt)
                  (λ sound. record_event-Returns usn reason (w.utf16_to_string (words bs)))
      where
        name_end :
            ltb (offset + rec_len) (offset + name_off + name_len) ≡ false
            → offset + name_off + name_len ≤ length buf
        name_end h = omega (arith, fits, ltb-ge (offset + rec_len) (offset + name_off + name_len) h)

    known_event-Returns : Returns Anything (known_event w buf offset rec_len major fo)
    unfolding known_event
    known_event-Returns =
        Returns-sliced Anything buf (offset + fo.usn_off) (offset + fo.usn_off + 8) _ (omega arith)
          (omega (arith, fits, c.0))
          λ usn.
            Returns-sliced Anything buf (offset + fo.reason_off) (offset + fo.reason_off + 4) _
              (omega arith) (omega (arith, fits, c.1))
              λ reason.
                Returns-sliced Anything buf (offset + fo.name_len_off)
                  (offset + fo.name_len_off + 2) _ (omega arith) (omega (arith, fits, c.2))
                  λ name_len.
                    Returns-sliced Anything buf (offset + fo.name_off_off)
                      (offset + fo.name_off_off + 2) _ (omega arith) (omega (arith, fits, c.3))
                      λ name_off.
                        named_event-Returns (le_value usn) (le_value reason) (le_value name_len)
                          (le_value name_off)

module _ (w : Platform) (buf : List ℕ) where
  decode_usn_record-Returns :
      (offset rec_len : ℕ)
      → 60 ≤ rec_len
      → offset + rec_len ≤ length buf
      → Returns Anything (decode_usn_record w buf offset rec_len)
  unfolding decode_usn_record
  decode_usn_record-Returns offset rec_len long fits =
      Returns-sliced Anything buf (offset + 4) (offset + 6) _ (omega arith)
        (omega (arith, long, fits))
        λ bs. elim (Option-cases (usn_record_field_offsets (le_value bs))) [
          | inl unknown ↦ rw unknown tt
          | inr (fo, e) ↦ rw e (
              Returns-if Anything (ltb (offset + rec_len) (offset + fo.name_off_off + 2)) _ _
                (λ short. tt)
                λ whole. known_event-Returns buf offset w rec_len (le_value bs) fo fits (
                  usn_record_field_offsets-Covers (le_value bs) rec_len fo e (
                    within_record fo.name_off_off
                      (ltb-ge (offset + rec_len) (offset + fo.name_off_off + 2) whole))))
        ]
    where
      within_record : (n : ℕ) → offset + n + 2 ≤ offset + rec_len → n + 2 ≤ rec_len
      within_record n h = omega (arith, h)

  abbrev AtMost : ℕ → List Event → Type 0
  AtMost limit events = length events ≤ limit

  length-with_event :
      (events : List Event) (ev : Option Event) → length (with_event events ev) ≤ length events + 1
  length-with_event events none = omega arith
  length-with_event events (some ev) = omega (arith, length-append {0} events (ev ∷ []))

  aligned-ge : (offset : ℕ) → offset ≤ aligned offset
  aligned-ge offset = ground arith

  parse_records-Returns :
      (fuel offset end limit : ℕ) (events : List Event)
      → end ≤ length buf
      → end - offset < fuel
      → length events ≤ limit
      → Returns (AtMost limit) (parse_records w fuel buf offset end limit events)
  unfolding parse_records
  parse_records-Returns zero offset end limit events k f l = absurd (omega (arith, f))
  parse_records-Returns (suc fuel) offset end limit events k f l =
      Returns-if (AtMost limit) (leb (offset + 60) end && ltb (length events) limit) _ _
        (λ more.
          let room : (offset + 60 ≤ end) × (length events < limit) = both more in
          Returns-sliced (AtMost limit) buf offset (offset + 4) _ (omega arith)
            (omega (arith, k, room.0))
            λ head.
              Returns-if (AtMost limit) (ltb (le_value head) 60 || ltb end (offset + le_value head))
                _ _ (λ bad. l)
                λ good.
                  let sound : (60 ≤ le_value head) × (offset + le_value head ≤ end) =
                    neither (le_value head) good in
                  Returns-bind (AtMost limit) (decode_usn_record w buf offset (le_value head)) _
                    (decode_usn_record-Returns offset (le_value head) sound.0
                      (omega (arith, k, sound.1)))
                    λ ev.
                      parse_records-Returns fuel (aligned (offset + le_value head)) end limit
                        (with_event events ev) k
                        (omega (arith, f, room.0, sound.0, aligned-ge (offset + le_value head)))
                        (omega (arith, room.1, length-with_event events ev)))
        (λ done. l)
    where
      both :
          (leb (offset + 60) end && ltb (length events) limit) ≡ true
          → (offset + 60 ≤ end) × (length events < limit)
      both h = ground (arith, h)

      neither : (n : ℕ) → (ltb n 60 || ltb end (offset + n)) ≡ false → (60 ≤ n) × (offset + n ≤ end)
      neither n h = ground (arith, h)

  -- For any bytes that a driver leaves in the buffer, as far as the buffer goes, the records are read
  -- without a slice out of range. The loop ends, with no more events than were asked for.
  pub parse_usn_record_buffer-Returns :
      (offset end limit : ℕ)
      → end ≤ length buf
      → Returns (λ events. length events ≤ limit) (parse_usn_record_buffer w buf offset end limit)
  unfolding parse_usn_record_buffer
  parse_usn_record_buffer-Returns offset end limit k =
      parse_records-Returns (suc (end - offset)) offset end limit [] k (omega arith) (omega arith)
