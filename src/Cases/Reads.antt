-- ===== src/Cases/Reads.antt =====
-- Save and ReadBodies: what is archived is read back.
use quarantine_lab.Prelude.{
  ℕ, suc, ◌≡◌, refl, sym, ap, subst, subst₂, ◌∙◌, inl, inr, false≢true, Bool, true, false, not,
  none, some, List, [], ◌∷◌, Bool-cases, Option-cases, if◌then◌else◌, length,
}
use quarantine_lab.Prelude.Text.{
  codes, has_prefix, Text, text_eq, text_eq→eq, text_eq_self, to_lower, trim_space,
}
use quarantine_lab.Cases.{
  Loader, load_body, skips_path, Side, from_side, to_side, Body, SideEntry, BodyEntry, no_entry,
  CaseFiles, Pack, lookup, normalize_index_path, body_name, clip, side_entry, set_side, side_of,
  entry_at, write_body_file, collect, read_rel,
}
use quarantine_lab.Cases.Names.{same_side, body_name-same}
use quarantine_lab.Cases.Steps.{
  Archive, archive, kept, archived, Fine, Named, Named-lookup, read_rel-empty,
  read_rel-write_body_file, written-Fine, Named-write_body_file, read_rel-Fine,
  Fine-write_body_file,
}

side_of-set_side :
    (t side : Side) (s : SideEntry) (e : BodyEntry)
    → side_of t (set_side side s e) ≡ (if same_side t side then s else side_of t e)
unfolding side_of set_side
side_of-set_side from_side from_side s e = refl
side_of-set_side from_side to_side s e = refl
side_of-set_side to_side from_side s e = refl
side_of-set_side to_side to_side s e = refl

apart_names : (a b : Text) → (a ≡ b → ⊥) → text_eq a b ≡ false
apart_names a b h = elim (Bool-cases (text_eq a b)) [
  | inl e ↦ absurd (h (text_eq→eq a b e))
  | inr e ↦ e
]

no_rel : (t : Side) → (side_of t no_entry).rel ≡ []
unfolding side_of
no_rel from_side = refl
no_rel to_side = refl

same_side→eq : (s t : Side) → same_side s t ≡ true → s ≡ t
same_side→eq from_side from_side e = refl
same_side→eq to_side to_side e = refl
same_side→eq from_side to_side e = absurd (false≢true e)
same_side→eq to_side from_side e = absurd (false≢true e)

module _ (hash from_slash : Text → Text) (writes : Text → Bool) (clean : Text → Text)
    (h16 : (t : Text) → length (hash t) ≡ 16)
    (cleaned : (j : Text) (t : Side)
      → (clean (from_slash (body_name hash j t)) ≡ from_slash (body_name hash j t))
        × (has_prefix (from_slash (body_name hash j t)) (codes "..") ≡ false)
        × ((k : Text) (s : Side)
            → from_slash (body_name hash k s) ≡ from_slash (body_name hash j t)
            → body_name hash k s ≡ body_name hash j t)) where
  abbrev store : Text → Side → List ℕ → CaseFiles → Text × CaseFiles
  store = write_body_file hash from_slash writes

  -- One body more
  abbrev extended : Text → Side → Body → Pack → Pack
  extended key side b pack =
      let w = store key side b.bytes pack.files in
      record {
        index = (key, set_side side (side_entry w.0 b) (entry_at key pack.index)) ∷ pack.index;
        files = w.1;
        bodies = if text_eq w.0 [] then pack.bodies else suc pack.bodies;
      }

  side_entry-rel : (rel : Text) (b : Body) → (side_entry rel b).rel ≡ rel
  unfolding side_entry
  side_entry-rel rel b = refl

  -- The other side of the same key
  other_side :
      (key : Text) (side t : Side) (b : Body) (pack : Pack)
      → Named hash from_slash writes clean pack.files pack.index
      → same_side t side ≡ false
      → read_rel from_slash clean
          (store key side b.bytes pack.files).1
          (side_of t (entry_at key pack.index)).rel
        ≡ elim (archived hash from_slash writes clean pack key t) [
          | none ↦ some []
          | some x ↦ some x
        ]
  unfolding entry_at side_of
  other_side key side t b pack h d = elim (Option-cases (lookup key pack.index)) [
    | inl e ↦
        rw (entry_at, e)
          (ap (read_rel from_slash clean _) (no_rel t)
            ∙ read_rel-empty hash from_slash writes clean _)
    | inr (e, q) ↦
        let f =
          read_rel-Fine hash from_slash writes clean cleaned key side b.bytes pack.files key t
            (side_of t e).rel
            (Named-lookup hash from_slash writes clean pack.files key pack.index e h q t)
            (apart_names (from_slash (body_name hash key t)) (from_slash (body_name hash key side))
              λ n. false≢true (
                sym d
                ∙ (body_name-same hash h16 key key t side ((cleaned key side).2 key t n)).0)) in
        rw (entry_at, q, f.2, f.1) refl
  ]

  extended-archived_key :
      (key : Text) (side t : Side) (b : Body) (pack : Pack)
      → Named hash from_slash writes clean pack.files pack.index
      → archived hash from_slash writes clean (extended key side b pack) key t ≡ (
          if same_side t side
          then some (kept hash from_slash writes clean key side b.bytes)
          else elim (archived hash from_slash writes clean pack key t) [
            | none ↦ some []
            | some x ↦ some x
          ])
  unfolding lookup
  extended-archived_key key side t b pack h =
      let w = store key side b.bytes pack.files in
      let s = side_of-set_side t side (side_entry w.0 b) (entry_at key pack.index) in
      rw (archived, text_eq_self key)
        (ap (λ x. read_rel from_slash clean w.1 x.rel) s ∙ elim (Bool-cases (same_side t side)) [
          | inl same ↦ rw same (
              ap (read_rel from_slash clean w.1) (side_entry-rel w.0 b)
              ∙ read_rel-write_body_file hash from_slash writes clean cleaned key side b.bytes
                  pack.files)
          | inr other ↦ rw other (other_side key side t b pack h other)
        ])

  extended-archived_other :
      (key : Text) (side : Side) (b : Body) (pack : Pack) (j : Text) (t : Side)
      → Named hash from_slash writes clean pack.files pack.index
      → (hash (to_lower key) ≡ hash (to_lower j) → key ≡ j)
      → text_eq j key ≡ false
      → archived hash from_slash writes clean (extended key side b pack) j t
        ≡ archived hash from_slash writes clean pack j t
  unfolding lookup
  extended-archived_other key side b pack j t h u a =
      rw (archived, a)
        (elim (Option-cases (lookup j pack.index)) [
          | inl e ↦ rw (archived, e) refl
          | inr (e, q) ↦
              let f =
                read_rel-Fine hash from_slash writes clean cleaned key side b.bytes pack.files j t
                  (side_of t e).rel
                  (Named-lookup hash from_slash writes clean pack.files j pack.index e h q t)
                  (apart_names (from_slash (body_name hash j t))
                    (from_slash (body_name hash key side))
                    λ n. false≢true (
                      sym a
                      ∙ ap (text_eq j) (
                          u (
                            sym
                              (body_name-same hash h16 j key t side
                                ((cleaned key side).2 j t n)).1))
                      ∙ text_eq_self j)) in
              rw (archived, q) (f.2 ∙ sym f.1)
        ])

  extended-archived :
      (key : Text) (side : Side) (b : Body) (pack : Pack) (j : Text) (t : Side)
      → Named hash from_slash writes clean pack.files pack.index
      → (hash (to_lower key) ≡ hash (to_lower j) → key ≡ j)
      → archived hash from_slash writes clean (extended key side b pack) j t
        ≡ archive key side
            (kept hash from_slash writes clean key side b.bytes)
            (archived hash from_slash writes clean pack)
            j
            t
  extended-archived key side b pack j t h u = elim (Bool-cases (text_eq j key)) [
    | inl same ↦ rw same (
        subst
          (λ i. archived hash from_slash writes clean (extended key side b pack) i t ≡ (
            if same_side t side
            then some (kept hash from_slash writes clean key side b.bytes)
            else elim (archived hash from_slash writes clean pack i t) [
              | none ↦ some []
              | some x ↦ some x
            ]))
          (sym (text_eq→eq j key same)) (extended-archived_key key side t b pack h))
    | inr apart ↦ rw apart (extended-archived_other key side b pack j t h u apart)
  ]

  entry-Fine :
      (key : Text) (pack : Pack) (t : Side)
      → Named hash from_slash writes clean pack.files pack.index
      → Fine hash from_slash writes clean pack.files key t (side_of t (entry_at key pack.index)).rel
  unfolding entry_at
  entry-Fine key pack t h = elim (Option-cases (lookup key pack.index)) [
    | inl e ↦ rw (entry_at, e) (inl (no_rel t))
    | inr (e, q) ↦
        rw (entry_at, q)
          (Named-lookup hash from_slash writes clean pack.files key pack.index e h q t)
  ]

  extended-Named :
      (key : Text) (side : Side) (b : Body) (pack : Pack)
      → Named hash from_slash writes clean pack.files pack.index
      → Named hash from_slash writes clean
          (extended key side b pack).files
          (extended key side b pack).index
  extended-Named key side b pack h =
      let w = store key side b.bytes pack.files in
      let old =
        Named-write_body_file hash from_slash writes clean cleaned key side b.bytes pack.files in
      (
        λ t.
            subst (λ x. Fine hash from_slash writes clean w.1 key t x.rel)
              (sym (side_of-set_side t side (side_entry w.0 b) (entry_at key pack.index))) (fine t),
        old pack.index h,
      )
    where
      fine :
          (t : Side)
          → Fine hash from_slash writes clean
              (store key side b.bytes pack.files).1
              key
              t
              (if same_side t side
                then side_entry (store key side b.bytes pack.files).0 b
                else side_of t (entry_at key pack.index)).rel
      fine t = elim (Bool-cases (same_side t side)) [
        | inl s ↦ rw s (
            subst₂
              (λ u r.
                Fine hash from_slash writes clean (store key side b.bytes pack.files).1 key u r)
              (sym (same_side→eq t side s))
              (sym (side_entry-rel (store key side b.bytes pack.files).0 b))
              (written-Fine hash from_slash writes clean cleaned key side b.bytes pack.files))
        | inr d ↦ rw d (
            Fine-write_body_file hash from_slash writes clean cleaned key side b.bytes pack.files
              key t (side_of t (entry_at key pack.index)).rel (entry-Fine key pack t h))
      ]

  module _ (max : ℕ) (load : Side → Loader) where
    key_of : Text → Text
    key_of p = normalize_index_path (trim_space p)

    body_of : Side → Text → Body
    body_of s p = clip max (load_body (load s) (trim_space p))

    collect-extended :
        (p : Text) (s : Side) (pack : Pack)
        → collect hash from_slash writes max p s (load s) pack
          ≡ (if skips_path p (load s) then pack else extended (key_of p) s (body_of s p) pack)
    unfolding collect key_of body_of
    collect-extended p s pack = refl

    -- The calls of `collect` for a list of paths and sides
    abbrev pub run : List (Text × Side) → Pack → Pack
    run [] pack = pack
    run (c ∷ cs) pack = run cs (collect hash from_slash writes max c.0 c.1 (load c.1) pack)

    -- The same calls on the abstract archive: a path that is not empty puts the body that was loaded for
    -- it, cut to the cap, for its key.
    abbrev pub archive_all : List (Text × Side) → Archive → Archive
    archive_all [] a = a
    archive_all (c ∷ cs) a = archive_all cs (
        if skips_path c.0 (load c.1)
        then a
        else archive (normalize_index_path (trim_space c.0)) c.1
            (kept hash from_slash writes clean (normalize_index_path (trim_space c.0)) c.1
              (clip max (load_body (load c.1) (trim_space c.0))).bytes)
            a)

    -- No other path of the calls has the hash of a key.
    abbrev pub Unshared : Text → List (Text × Side) → Type 0
    Unshared j [] = Unit
    Unshared j (c ∷ cs) =
        (hash (to_lower (normalize_index_path (trim_space c.0))) ≡ hash (to_lower j)
          → normalize_index_path (trim_space c.0) ≡ j)
        × Unshared j cs

    pub run-archived :
        (cs : List (Text × Side)) (pack : Pack) (a : Archive) (j : Text)
        → Named hash from_slash writes clean pack.files pack.index
        → Unshared j cs
        → ((t : Side) → archived hash from_slash writes clean pack j t ≡ a j t)
        → (t : Side)
        → archived hash from_slash writes clean (run cs pack) j t ≡ archive_all cs a j t
    unfolding key_of body_of
    run-archived [] pack a j h u agree t = agree t
    run-archived (c ∷ cs) pack a j h u agree t = elim (Bool-cases (skips_path c.0 (load c.1))) [
      | inl e ↦
          let same = collect-extended c.0 c.1 pack ∙ (rw e refl) in
          rw (e, same) (run-archived cs pack a j h u.1 agree t)
      | inr e ↦
          let b = body_of c.1 c.0 in
          let k = key_of c.0 in
          let same : collect hash from_slash writes max c.0 c.1 (load c.1) pack
              ≡ extended k c.1 b pack =
            collect-extended c.0 c.1 pack ∙ (rw e refl) in
          rw (e, same)
            (run-archived cs (extended k c.1 b pack)
              (archive k c.1 (kept hash from_slash writes clean k c.1 b.bytes) a) j
              (extended-Named k c.1 b pack h) u.1
              (λ s.
                extended-archived k c.1 b pack j s h u.0
                ∙ ap
                    (λ x.
                      if not (text_eq j k)
                      then x
                      else if same_side s c.1
                      then some (kept hash from_slash writes clean k c.1 b.bytes)
                      else elim x [ none ↦ some [] | some y ↦ some y ])
                    (agree s))
              t)
    ]

    at_pack :
        {p q : Pack} (cs : List (Text × Side))
        → p ≡ q
        → Named hash from_slash writes clean (run cs q).files (run cs q).index
        → Named hash from_slash writes clean (run cs p).files (run cs p).index
    at_pack cs e h =
        subst (λ x. Named hash from_slash writes clean (run cs x).files (run cs x).index) (sym e) h

    -- Every entry that the calls leave names no file, or the one of its key and side.
    pub run-Named :
        (cs : List (Text × Side)) (pack : Pack)
        → Named hash from_slash writes clean pack.files pack.index
        → Named hash from_slash writes clean (run cs pack).files (run cs pack).index
    unfolding key_of body_of
    run-Named [] pack h = h
    run-Named (c ∷ cs) pack h = elim (Bool-cases (skips_path c.0 (load c.1))) [
      | inl e ↦
          let same = collect-extended c.0 c.1 pack ∙ (rw e refl) in
          at_pack cs same (run-Named cs pack h)
      | inr e ↦
          let same : collect hash from_slash writes max c.0 c.1 (load c.1) pack
              ≡ extended (key_of c.0) c.1 (body_of c.1 c.0) pack =
            collect-extended c.0 c.1 pack ∙ (rw e refl) in
          at_pack cs same (
            run-Named cs (extended (key_of c.0) c.1 (body_of c.1 c.0) pack)
              (extended-Named (key_of c.0) c.1 (body_of c.1 c.0) pack h))
    ]
