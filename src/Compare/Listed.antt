-- ===== src/Compare/Listed.antt =====
-- diffFiles: what is listed, and that the order in which Go walks a map does not show.
use quarantine_lab.Prelude.{◌≡◌, refl, sym, ◌∙◌, ◌↔◌, true, Option, none, some, List}
use quarantine_lab.Prelude.Text.{Text}
use quarantine_lab.Compare.{
  FileEntry, FileDetail, FileModified, FileMap, get, index_files, file_detail, sort_by, differs,
  file_modified, sorted, diff_files,
}
use quarantine_lab.Compare.Ordered.{Among, Ascending, Ascending-ext}
use quarantine_lab.Compare.Index.{Proper, last_with, index_files-Proper, get-index_files}
use quarantine_lab.Compare.Exact.{
  listing, listing-Ascending, Among-listed, gone, changed, missing_in-listing, modified_in-listing,
  gone-some, changed-some, gone-named, changed-named,
}

-- The look-ups of two maps are those of the functions `a` and `b`.
module _ (other m : FileMap) (p : Proper m) (a b : Text → Option FileEntry)
    (ea : (k : Text) → get k other ≡ a k) (eb : (k : Text) → get k m ≡ b k) where
  gone_listed :
      (d : FileDetail)
      → Among d (sort_by (λ f. f.path) (listing (gone other) m))
        ↔ ((k : Text) × (f : FileEntry) × (b k ≡ some f) × (a k ≡ none) × (d ≡ file_detail f))
  gone_listed d =
      let l = Among-listed (gone other) (λ f. f.path) (gone-named other) d m p in
      (
        λ h.
            let r = l.0 h in
            let g = (gone-some other r.0 d).0 r.2 in
            (r.0.0, r.0.1, sym (eb r.0.0) ∙ r.1, sym (ea r.0.0) ∙ g.0, g.1),
        λ h. l.1 ((h.0, h.1), eb h.0 ∙ h.2, (gone-some other (h.0, h.1) d).1 (ea h.0 ∙ h.3, h.4)),
      )

  changed_listed :
      (d : FileModified)
      → Among d (sort_by (λ f. f.path) (listing (changed other) m)) ↔ (
          (k : Text) × (lf : FileEntry) × (rf : FileEntry) × (a k ≡ some lf)
          × (b k ≡ some rf)
          × (differs lf rf ≡ true)
          × (d ≡ file_modified lf rf))
  changed_listed d =
      let l = Among-listed (changed other) (λ f. f.path) (changed-named other) d m p in
      (
        λ h.
            let r = l.0 h in
            let g = (changed-some other r.0 d).0 r.2 in
            (r.0.0, g.0, r.0.1, sym (ea r.0.0) ∙ g.1, sym (eb r.0.0) ∙ r.1, g.2, g.3),
        λ h. l.1 (
          (h.0, h.2),
          eb h.0 ∙ h.4,
          (changed-some other (h.0, h.2) d).1 (h.1, ea h.0 ∙ h.3, h.5, h.6),
        ),
      )

diff_files-listing :
    (left right : FileMap)
    → diff_files left right ≡ record {
      added = sort_by (λ f. f.path) (listing (gone left) right);
      removed = sort_by (λ f. f.path) (listing (gone right) left);
      modified = sort_by (λ f. f.path) (listing (changed left) right);
    }
unfolding diff_files sorted
diff_files-listing left right =
    rw
      (missing_in-listing left right, missing_in-listing right left, modified_in-listing left right)
      refl

-- Of two manifests, let an entry be at a path when it is the manifest's last one with that path,
-- capitals aside, and the path is not empty. Then diffFiles of the two indexes lists as added exactly
-- the entries that are at a path where the left manifest has none, as removed exactly those at a path
-- where the right one has none, and as modified exactly the pairs at one path whose hash or size
-- differs, each with the details of its entries.
pub diff_files-listed :
    (left right : List FileEntry)
    → let r = diff_files (index_files left) (index_files right) in
      ((d : FileDetail)
        → Among d r.added ↔ (
            (k : Text) × (f : FileEntry) × (last_with k right ≡ some f)
            × (last_with k left ≡ none)
            × (d ≡ file_detail f)))
      × ((d : FileDetail)
          → Among d r.removed ↔ (
              (k : Text) × (f : FileEntry) × (last_with k left ≡ some f)
              × (last_with k right ≡ none)
              × (d ≡ file_detail f)))
      × ((d : FileModified)
          → Among d r.modified ↔ (
              (k : Text) × (lf : FileEntry) × (rf : FileEntry) × (last_with k left ≡ some lf)
              × (last_with k right ≡ some rf)
              × (differs lf rf ≡ true)
              × (d ≡ file_modified lf rf)))
diff_files-listed left right =
    let l = index_files left in
    let r = index_files right in
    let p = index_files-Proper left in
    let q = index_files-Proper right in
    let a = λ (k : Text). get-index_files k left in
    let b = λ (k : Text). get-index_files k right in
    rw (diff_files-listing l r) (
      gone_listed l r q (λ k. last_with k left) (λ k. last_with k right) a b,
      gone_listed r l p (λ k. last_with k right) (λ k. last_with k left) b a,
      changed_listed l r q (λ k. last_with k left) (λ k. last_with k right) a b,
    )

determined :
    {A : Type 0} (key : A → Text) (P : A → Type 0) (xs ys : List A)
    → Ascending key xs
    → Ascending key ys
    → ((a : A) → Among a xs ↔ P a)
    → ((a : A) → Among a ys ↔ P a)
    → xs ≡ ys
determined key P xs ys o p f g =
    Ascending-ext key xs ys o p (λ a m. (g a).1 ((f a).0 m)) (λ a m. (f a).1 ((g a).0 m))

-- Two orders of the entries of each of two maps
module _ (o m o' m' : FileMap) (h : Proper m) (h' : Proper m') (s : (k : Text) → get k o' ≡ get k o)
    (t : (k : Text) → get k m' ≡ get k m) where
  same_gone :
      sort_by (λ f. f.path) (listing (gone o) m) ≡ sort_by (λ f. f.path) (listing (gone o') m')
  same_gone =
      determined (λ f. f.path) _ _ _ (listing-Ascending (gone o) (λ f. f.path) (gone-named o) m h)
        (listing-Ascending (gone o') (λ f. f.path) (gone-named o') m' h')
        (gone_listed o m h (λ k. get k o) (λ k. get k m) (λ k. refl) (λ k. refl))
        (gone_listed o' m' h' (λ k. get k o) (λ k. get k m) s t)

  same_changed :
      sort_by (λ f. f.path) (listing (changed o) m)
      ≡ sort_by (λ f. f.path) (listing (changed o') m')
  same_changed =
      determined (λ f. f.path) _ _ _
        (listing-Ascending (changed o) (λ f. f.path) (changed-named o) m h)
        (listing-Ascending (changed o') (λ f. f.path) (changed-named o') m' h')
        (changed_listed o m h (λ k. get k o) (λ k. get k m) (λ k. refl) (λ k. refl))
        (changed_listed o' m' h' (λ k. get k o) (λ k. get k m) s t)

-- diffFiles gives the same lists in the same order however Go walks its two maps: for any two lists of
-- the entries of one left map and any two of one right map, each with every key once and under the
-- small letters of its entry's path, the results are equal.
pub diff_files-order :
    (left right left' right' : FileMap)
    → Proper left
    → Proper right
    → Proper left'
    → Proper right'
    → ((k : Text) → get k left' ≡ get k left)
    → ((k : Text) → get k right' ≡ get k right)
    → diff_files left right ≡ diff_files left' right'
diff_files-order left right left' right' p q p' q' s t =
    diff_files-listing left right
    ∙ (rw
        (
          same_gone left right left' right' q q' s t,
          same_gone right left right' left' p p' t s,
          same_changed left right left' right' q q' s t,
        )
        refl)
    ∙ sym (diff_files-listing left' right')
