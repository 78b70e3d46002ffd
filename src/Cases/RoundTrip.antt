-- ===== src/Cases/RoundTrip.antt =====
-- ReadBodies after Save.
use quarantine_lab.Prelude.{
  ℕ, ◌≡◌, refl, sym, ◌∙◌, inl, inr, ◌⊎◌, Bool, false, none, some, List, [], ◌∷◌, ◌++◌, Option-cases,
  if◌then◌else◌, length,
}
use quarantine_lab.Prelude.Int.{ℤ}
use quarantine_lab.Prelude.Text.{codes, has_prefix, Text, text_eq}
use quarantine_lab.Compare.{FileDetail, FileModified, Changes}
use quarantine_lab.Cases.{
  Loader, Side, from_side, to_side, BodyEntry, CaseFiles, Pack, lookup, normalize_index_path,
  body_name, body_cap, side_of, collect_added, collect_removed, collect_modified, save_bodies,
  read_rel, find_entry, read_bodies,
}
use quarantine_lab.Cases.Steps.{Archive, archived, Fine, Named, Named-lookup}
use quarantine_lab.Cases.Reads.{run, archive_all, Unshared, run-archived, run-Named}

-- The loader of a side
abbrev pub loader : Loader → Loader → Side → Loader
loader load_from load_to from_side = load_from
loader load_from load_to to_side = load_to

abbrev pub both_sides : Text → List (Text × Side) → List (Text × Side)
both_sides p rest = (p, from_side) ∷ (p, to_side) ∷ rest

abbrev pub added_calls : List FileDetail → List (Text × Side)
added_calls [] = []
added_calls (f ∷ fs) = (f.path, to_side) ∷ added_calls fs

abbrev pub removed_calls : List FileDetail → List (Text × Side)
removed_calls [] = []
removed_calls (f ∷ fs) = both_sides f.path (removed_calls fs)

abbrev pub modified_calls : List FileModified → List (Text × Side)
modified_calls [] = []
modified_calls (m ∷ ms) =
    both_sides (if text_eq m.path [] then m.after.path else m.path) (modified_calls ms)

-- The bodies that Save asks for, in its order: the new side of an added file, both of the others
abbrev pub calls : Changes → List (Text × Side)
calls files =
    added_calls files.added ++ (removed_calls files.removed ++ modified_calls files.modified)

abbrev pub nothing : Archive
nothing j t = none

-- An entry of a key names no file for a side, or the one of the key and the side.
abbrev pub NamesOwn : (Text → Text) → Text → Side → Text → Type 0
NamesOwn hash key side rel = (rel ≡ []) ⊎ (rel ≡ body_name hash key side)

module _ (hash from_slash : Text → Text) (writes : Text → Bool) (clean : Text → Text)
    (h16 : (t : Text) → length (hash t) ≡ 16)
    (cleaned : (j : Text) (t : Side)
      → (clean (from_slash (body_name hash j t)) ≡ from_slash (body_name hash j t))
        × (has_prefix (from_slash (body_name hash j t)) (codes "..") ≡ false)
        × ((k : Text) (s : Side)
            → from_slash (body_name hash k s) ≡ from_slash (body_name hash j t)
            → body_name hash k s ≡ body_name hash j t))
    (load_from load_to : Loader) where
  abbrev runs : ℕ → List (Text × Side) → Pack → Pack
  runs max = run hash from_slash writes clean h16 cleaned max (loader load_from load_to)

  run-append :
      (max : ℕ) (xs ys : List (Text × Side)) (pack : Pack)
      → runs max (xs ++ ys) pack ≡ runs max ys (runs max xs pack)
  run-append max [] ys pack = refl
  run-append max (x ∷ xs) ys pack = run-append max xs ys _

  collect_added-run :
      (max : ℕ) (fs : List FileDetail) (pack : Pack)
      → collect_added hash from_slash writes max load_to fs pack ≡ runs max (added_calls fs) pack
  unfolding collect_added
  collect_added-run max [] pack = refl
  collect_added-run max (f ∷ fs) pack = collect_added-run max fs _

  collect_removed-run :
      (max : ℕ) (fs : List FileDetail) (pack : Pack)
      → collect_removed hash from_slash writes max load_from load_to fs pack
        ≡ runs max (removed_calls fs) pack
  unfolding collect_removed
  collect_removed-run max [] pack = refl
  collect_removed-run max (f ∷ fs) pack = collect_removed-run max fs _

  collect_modified-run :
      (max : ℕ) (ms : List FileModified) (pack : Pack)
      → collect_modified hash from_slash writes max load_from load_to ms pack
        ≡ runs max (modified_calls ms) pack
  unfolding collect_modified
  collect_modified-run max [] pack = refl
  collect_modified-run max (m ∷ ms) pack = collect_modified-run max ms _

  abbrev empty_pack : Pack
  empty_pack = record { index = []; files = []; bodies = 0 }

  save_bodies-run :
      (max : ℤ) (files : Changes)
      → save_bodies hash from_slash writes max load_from load_to files
        ≡ runs (body_cap max) (calls files) empty_pack
  unfolding save_bodies
  save_bodies-run max files =
      let n = body_cap max in
      let one = runs n (added_calls files.added) empty_pack in
      rw (collect_added-run n files.added empty_pack) (
        rw (collect_removed-run n files.removed one) (
          collect_modified-run n files.modified (runs n (removed_calls files.removed) one)
          ∙ sym (
              run-append n (added_calls files.added)
                (removed_calls files.removed ++ modified_calls files.modified) empty_pack
              ∙ run-append n (removed_calls files.removed) (modified_calls files.modified) one)))

  read_bodies-archived :
      (pack : Pack) (g : Text) (f t : List ℕ)
      → archived hash from_slash writes clean pack (normalize_index_path g) from_side ≡ some f
      → archived hash from_slash writes clean pack (normalize_index_path g) to_side ≡ some t
      → Named hash from_slash writes clean pack.files pack.index
      → (e : BodyEntry) × (read_bodies from_slash clean pack g ≡ some (f, (t, e)))
        × ((side : Side) → NamesOwn hash (normalize_index_path g) side (side_of side e).rel)
  unfolding read_bodies find_entry side_of
  read_bodies-archived pack g f t a b named =
      elim (Option-cases (lookup (normalize_index_path g) pack.index)) [
        | inl q ↦ absurd (none_of (rw (archived, q) at a))
        | inr (e, q) ↦
            let x : read_rel from_slash clean pack.files e.from.rel ≡ some f =
              rw (archived, q) at a in
            let y : read_rel from_slash clean pack.files e.to.rel ≡ some t =
              rw (archived, q) at b in
            (
              e,
              (rw (read_bodies, find_entry, q, x, y) refl),
              λ side. own pack.files (normalize_index_path g) (side_of side e).rel side (
                  Named-lookup hash from_slash writes clean pack.files (normalize_index_path g)
                    pack.index e named q side),
            )
      ]
    where
      none_of : {l : List ℕ} → none ≡ some l → ⊥
      none_of e = cc

      own :
          (files : CaseFiles) (key rel : Text) (side : Side)
          → Fine hash from_slash writes clean files key side rel
          → NamesOwn hash key side rel
      own files key rel side (inl e) = inl e
      own files key rel side (inr e) = inr e.0

  -- What Save archives is read back by ReadBodies. Start from an archive without bodies, and let each
  -- path of the comparison put the body that was loaded for it, cut to the cap, for its key and side (or
  -- nothing, where its file could not be written), the later ones over the earlier ones. If that
  -- archive has bodies for the key of a path, then ReadBodies gives exactly these two for the path, and an
  -- entry that names for each side no file or the one of the key and the side. A side without a loader
  -- has no body. Hashes have 16 digits; for the names of body files, filepath.FromSlash gives different
  -- paths for different names, none of which begins with two dots, and filepath.Clean keeps them; and
  -- no other key of the comparison has the hash of this one.
  pub save_bodies-read_bodies :
      (max_body_bytes : ℤ) (files : Changes) (g : Text) (f t : List ℕ)
      → let j = normalize_index_path g in
        let load = loader load_from load_to in
        let cap = body_cap max_body_bytes in
        Unshared hash from_slash writes clean h16 cleaned cap load j (calls files)
        → archive_all hash from_slash writes clean h16 cleaned cap load
            (calls files)
            nothing
            j
            from_side
          ≡ some f
        → archive_all hash from_slash writes clean h16 cleaned cap load
            (calls files)
            nothing
            j
            to_side
          ≡ some t
        → (e : BodyEntry) × (read_bodies from_slash clean
              (save_bodies hash from_slash writes max_body_bytes load_from load_to files)
              g
            ≡ some (f, (t, e)))
          × ((side : Side) → NamesOwn hash j side (side_of side e).rel)
  unfolding lookup
  save_bodies-read_bodies max_body_bytes files g f t u a b =
      let j = normalize_index_path g in
      let cap = body_cap max_body_bytes in
      let r =
        run-archived hash from_slash writes clean h16 cleaned cap (loader load_from load_to)
          (calls files) empty_pack nothing j tt u (λ s. refl) in
      rw (save_bodies-run max_body_bytes files) (
        read_bodies-archived (runs cap (calls files) empty_pack) g f t (r from_side ∙ a)
          (r to_side ∙ b)
          (run-Named hash from_slash writes clean h16 cleaned cap (loader load_from load_to)
            (calls files) empty_pack tt))
