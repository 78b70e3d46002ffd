-- ===== src/Cases/Steps.antt =====
-- One call of `collect` as a change of an abstract archive.
use quarantine_lab.Prelude.{
  ℕ, ◌≡◌, refl, sym, ap, subst₂, ◌∙◌, ◌⊎◌, inl, inr, Bool, false, not, Option, none, some, List, [],
  ◌∷◌, arith, Bool-cases, ◌==◌, if◌then◌else◌, length,
}
use quarantine_lab.Prelude.Text.{
  codes, has_prefix, Text, text_eq, text_eq→eq, text_eq_self, trim_space,
}
use quarantine_lab.Cases.{
  Side, BodyEntry, BodyIndex, CaseFiles, Pack, lookup, body_name, side_of, write_body_file,
  read_rel,
}
use quarantine_lab.Cases.Names.{same_side, body_name-trim_space, body_name-nonempty}

-- What an archive has for a key and a side: nothing, or some bytes
abbrev pub Archive : Type 0
Archive = Text → Side → Option (List ℕ)

-- A body is put for one side of a key; the other side is there and empty, if there was none.
abbrev pub archive : Text → Side → List ℕ → Archive → Archive
archive key side bytes a j t =
    if not (text_eq j key)
    then a j t
    else if same_side t side
    then some bytes
    else elim (a j t) [ none ↦ some [] | some b ↦ some b ]

long : (b : ℕ) (bs : List ℕ) → (length (b ∷ bs) == 0) ≡ false
long b bs = ground arith

some_of : {A : Type 0} {a b : A} → some a ≡ some b → a ≡ b
some_of {a} e = ap (λ o. elim o [ none ↦ a | some c ↦ c ]) e

module _ (hash from_slash : Text → Text) (writes : Text → Bool) (clean : Text → Text) where
  -- What is read back of a body, if its file is written
  abbrev pub kept : Text → Side → List ℕ → List ℕ
  kept key side bytes = if writes (from_slash (body_name hash key side)) then bytes else []

  -- What readRel reads for a key and a side
  abbrev pub archived : Pack → Archive
  archived pack j t = elim (lookup j pack.index) [
    | none ↦ none
    | some e ↦ read_rel from_slash clean pack.files (side_of t e).rel
  ]

  -- An entry names no file, or the one of its key and side, which is there.
  abbrev pub Fine : CaseFiles → Text → Side → Text → Type 0
  Fine files key t rel =
      (rel ≡ [])
      ⊎ ((rel ≡ body_name hash key t)
          × ((b : List ℕ) × (lookup (from_slash (body_name hash key t)) files ≡ some b)))

  abbrev pub Named : CaseFiles → BodyIndex → Type 0
  Named files [] = Unit
  Named files (e ∷ m) = ((t : Side) → Fine files e.0 t (side_of t e.1).rel) × Named files m

  pub Named-lookup :
      (files : CaseFiles) (j : Text) (m : BodyIndex) (e : BodyEntry)
      → Named files m
      → lookup j m ≡ some e
      → (t : Side) → Fine files j t (side_of t e).rel
  unfolding lookup
  Named-lookup files j [] e h q t = absurd cc
  Named-lookup files j (d ∷ m) e h q t = elim (Bool-cases (text_eq j d.0)) [
    | inl same ↦
        subst₂ (λ n x. Fine files n t (side_of t x).rel) (sym (text_eq→eq j d.0 same))
          (some_of (rw same at q)) (h.0 t)
    | inr apart ↦ Named-lookup files j m e h.1 (rw apart at q) t
  ]

  pub read_rel-empty : (files : CaseFiles) → read_rel from_slash clean files [] ≡ some []
  unfolding read_rel trim_space
  read_rel-empty files = refl

  module _
      (cleaned : (j : Text) (t : Side)
        → (clean (from_slash (body_name hash j t)) ≡ from_slash (body_name hash j t))
          × (has_prefix (from_slash (body_name hash j t)) (codes "..") ≡ false)
          × ((k : Text) (s : Side)
              → from_slash (body_name hash k s) ≡ from_slash (body_name hash j t)
              → body_name hash k s ≡ body_name hash j t)) where
    read_rel-name :
        (files : CaseFiles) (j : Text) (t : Side)
        → read_rel from_slash clean files (body_name hash j t)
          ≡ lookup (from_slash (body_name hash j t)) files
    unfolding read_rel
    read_rel-name files j t =
        rw
          (
            body_name-trim_space hash j t,
            body_name-nonempty hash j t,
            (cleaned j t).0,
            (cleaned j t).1,
          )
          refl

    -- Reading back what writeBodyFile wrote under the name that it gave
    pub read_rel-write_body_file :
        (key : Text) (side : Side) (bytes : List ℕ) (files : CaseFiles)
        → let w = write_body_file hash from_slash writes key side bytes files in
          read_rel from_slash clean w.1 w.0 ≡ some (kept key side bytes)
    unfolding write_body_file lookup
    read_rel-write_body_file key side [] files =
        elim (Bool-cases (writes (from_slash (body_name hash key side)))) [
          | inl ok ↦ rw ok (read_rel-empty files)
          | inr no_room ↦ rw no_room (read_rel-empty files)
        ]
    read_rel-write_body_file key side (b ∷ bs) files =
        elim (Bool-cases (writes (from_slash (body_name hash key side)))) [
          | inl ok ↦
              rw (long b bs, ok)
                (read_rel-name _ key side
                  ∙ (rw (text_eq_self (from_slash (body_name hash key side))) refl))
          | inr no_room ↦ rw (long b bs, no_room) (read_rel-empty files)
        ]

    lookup-write_body_file :
        (key name : Text) (side : Side) (bytes : List ℕ) (files : CaseFiles)
        → text_eq name (from_slash (body_name hash key side)) ≡ false
        → lookup name (write_body_file hash from_slash writes key side bytes files).1
          ≡ lookup name files
    unfolding write_body_file lookup
    lookup-write_body_file key name side [] files a = refl
    lookup-write_body_file key name side (b ∷ bs) files a =
        elim (Bool-cases (writes (from_slash (body_name hash key side)))) [
          | inl ok ↦ rw (long b bs, ok, a) refl
          | inr no_room ↦ rw (long b bs, no_room) refl
        ]

    pub written-Fine :
        (key : Text) (side : Side) (bytes : List ℕ) (files : CaseFiles)
        → let w = write_body_file hash from_slash writes key side bytes files in
          Fine w.1 key side w.0
    unfolding write_body_file lookup
    written-Fine key side [] files = inl refl
    written-Fine key side (b ∷ bs) files =
        elim (Bool-cases (writes (from_slash (body_name hash key side)))) [
          | inl ok ↦
              rw (long b bs, ok)
                (inr
                  (refl, (b ∷ bs, (rw (text_eq_self (from_slash (body_name hash key side))) refl))))
          | inr no_room ↦ rw (long b bs, no_room) (inl refl)
        ]

    -- Further writes keep what entries name.
    pub Fine-write_body_file :
        (key : Text) (side : Side) (bytes : List ℕ) (files : CaseFiles) (j : Text) (t : Side)
        (rel : Text)
        → Fine files j t rel
        → Fine (write_body_file hash from_slash writes key side bytes files).1 j t rel
    unfolding write_body_file lookup
    Fine-write_body_file key side bytes files j t rel (inl e) = inl e
    Fine-write_body_file key side [] files j t rel (inr f) = inr f
    Fine-write_body_file key side (b ∷ bs) files j t rel (inr f) =
        elim (Bool-cases (writes (from_slash (body_name hash key side)))) [
          | inr no_room ↦ rw (long b bs, no_room) (inr f)
          | inl ok ↦
              rw (long b bs, ok)
                (elim (Bool-cases (
                  text_eq (from_slash (body_name hash j t))
                    (from_slash (body_name hash key side)))) [
                      | inl e ↦ inr (f.0, (b ∷ bs, (rw e refl)))
                      | inr e ↦ inr (f.0, (f.1.0, (rw e f.1.1)))
                    ])
        ]

    pub Named-write_body_file :
        (key : Text) (side : Side) (bytes : List ℕ) (files : CaseFiles) (m : BodyIndex)
        → Named files m
        → Named (write_body_file hash from_slash writes key side bytes files).1 m
    Named-write_body_file key side bytes files [] h = tt
    Named-write_body_file key side bytes files (e ∷ m) h = (
      λ t. Fine-write_body_file key side bytes files e.0 t (side_of t e.1).rel (h.0 t),
      Named-write_body_file key side bytes files m h.1,
    )

    -- What an entry names is read as before, if it is not the name that is written.
    pub read_rel-Fine :
        (key : Text) (side : Side) (bytes : List ℕ) (files : CaseFiles) (j : Text) (t : Side)
        (rel : Text)
        → Fine files j t rel
        → text_eq (from_slash (body_name hash j t)) (from_slash (body_name hash key side)) ≡ false
        → (b : List ℕ) × (read_rel from_slash clean files rel ≡ some b)
          × (read_rel from_slash clean
                (write_body_file hash from_slash writes key side bytes files).1
                rel
              ≡ some b)
    read_rel-Fine key side bytes files j t rel (inl e) a = (
      [],
      ap (read_rel from_slash clean files) e ∙ read_rel-empty files,
      ap (read_rel from_slash clean _) e ∙ read_rel-empty _,
    )
    read_rel-Fine key side bytes files j t rel (inr f) a = (
      f.1.0,
      ap (read_rel from_slash clean files) f.0 ∙ read_rel-name files j t ∙ f.1.1,
      ap (read_rel from_slash clean _) f.0
          ∙ read_rel-name _ j t
          ∙ lookup-write_body_file key (from_slash (body_name hash j t)) side bytes files a
          ∙ f.1.1,
    )
