-- ===== src/Compare/Captured.antt =====
-- go/internal/diff/engine.go: filesFromCapturedChanges, the changes that the guest's collector reported.
use quarantine_lab.Prelude.{
  ℕ, suc, ◌+◌, ◌≡◌, refl, sym, ap, subst, ◌∙◌, inl, inr, ◌⊎◌, false≢true, Bool, true, false, ◌&&◌,
  ◌||◌, not, List, [], ◌∷◌, arith, Bool-cases, if◌then◌else◌, length, ltb,
}
use quarantine_lab.Prelude.Int.{ℤ, pos, negsuc}
use quarantine_lab.Prelude.Text.{Text, codes, text_eq, text_eq→eq, to_lower}
use quarantine_lab.Compare.{
  FileEntry, path_value, FileDetail, no_detail, FileModified, Changes, file_detail, insert_by,
  sort_by, sorted,
}
use quarantine_lab.Compare.Ordered.{Among, Among-sort_by}

-- f.S > 0
abbrev pub positive : ℤ → Bool
positive (pos n) = ltb 0 n
positive (negsuc n) = false

-- capturedFilePresent
unfoldable pub captured_file_present : FileEntry → Bool
unfolding to_lower
captured_file_present f =
    (not (text_eq f.h []) || positive f.s)
    || (text_eq (to_lower f.c) (codes "text") || text_eq (to_lower f.c) (codes "base64"))

-- The detail and the change of an entry, with a deletion of a file that is still there set right
unfoldable pub captured_change : FileEntry → Text × FileDetail
unfolding captured_file_present file_detail to_lower
captured_change f =
    if text_eq (to_lower f.change) (codes "removed") && captured_file_present f
    then (codes "added", record (file_detail f) { change = codes "added" })
    else (to_lower f.change, file_detail f)

-- The switch on the change
unfoldable pub file_under : Text × FileDetail → Text → Changes → Changes
file_under d p rest =
    if text_eq d.0 (codes "removed")
    then record rest { removed = d.1 ∷ rest.removed }
    else if text_eq d.0 (codes "modified")
    then record rest {
      modified = record { path = p; before = no_detail; after = d.1 } ∷ rest.modified;
    }
    else record rest { added = d.1 ∷ rest.added }

-- The loop of filesFromCapturedChanges
unfoldable pub captured_loop : List FileEntry → Changes
unfolding path_value captured_change file_under
captured_loop [] = record { added = []; removed = []; modified = [] }
captured_loop (f ∷ fs) =
    let rest = captured_loop fs in
    if text_eq (path_value f) [] then rest else file_under (captured_change f) (path_value f) rest

-- filesFromCapturedChanges
unfoldable pub files_from_captured_changes : List FileEntry → Changes
unfolding captured_loop sorted
files_from_captured_changes files = sorted (captured_loop files)

-- The entries that have a path
abbrev pub with_path : List FileEntry → List FileEntry
with_path [] = []
with_path (f ∷ fs) = if text_eq (path_value f) [] then with_path fs else f ∷ with_path fs

abbrev pub listed : Changes → ℕ
listed c = length c.added + length c.removed + length c.modified

length-insert_by :
    {A : Type 0} (key : A → Text) (a : A) (bs : List A)
    → length (insert_by key a bs) ≡ suc (length bs)
unfolding insert_by
length-insert_by key a [] = refl
length-insert_by key a (b ∷ bs) = ground (arith, length-insert_by key a bs)

length-sort_by : {A : Type 0} (key : A → Text) (bs : List A) → length (sort_by key bs) ≡ length bs
unfolding sort_by
length-sort_by key [] = refl
length-sort_by key (b ∷ bs) =
    length-insert_by key b (sort_by key bs) ∙ ap suc (length-sort_by key bs)

listed-file_under :
    (d : Text × FileDetail) (p : Text) (c : Changes) → listed (file_under d p c) ≡ suc (listed c)
unfolding file_under
listed-file_under d p c = elim (Bool-cases (text_eq d.0 (codes "removed"))) [
  | inl e ↦ rw e (omega arith)
  | inr e ↦ elim (Bool-cases (text_eq d.0 (codes "modified"))) [
    | inl g ↦ rw (e, g) (omega arith)
    | inr g ↦ rw (e, g) (omega arith)
  ]
]

listed-captured_loop : (fs : List FileEntry) → listed (captured_loop fs) ≡ length (with_path fs)
unfolding captured_loop
listed-captured_loop [] = refl
listed-captured_loop (f ∷ fs) = elim (Bool-cases (text_eq (path_value f) [])) [
  | inl e ↦ rw e (listed-captured_loop fs)
  | inr e ↦ rw e (
      listed-file_under (captured_change f) (path_value f) (captured_loop fs)
      ∙ ap suc (listed-captured_loop fs))
]

-- A file that the report calls removed: the entry says so and shows nothing of it.
abbrev pub GoneFile : FileDetail → FileEntry → Type 0
GoneFile d f =
    (d ≡ file_detail f) × (to_lower f.change ≡ codes "removed") × (captured_file_present f ≡ false)

captured_change-removed :
    (f : FileEntry)
    → text_eq (captured_change f).0 (codes "removed") ≡ true
    → GoneFile (captured_change f).1 f
unfolding captured_change
captured_change-removed f e = elim (Bool-cases (text_eq (to_lower f.change) (codes "removed"))) [
  | inl r ↦ elim (Bool-cases (captured_file_present f)) [
    | inl there ↦ absurd (false≢true (rw (captured_change, r, there) at e))
    | inr bare ↦
        rw (captured_change, r, bare)
          (refl, text_eq→eq (to_lower f.change) (codes "removed") r, refl)
  ]
  | inr r ↦ absurd (false≢true (sym r ∙ (rw (captured_change, r) at e)))
]

file_under-removed :
    (d : Text × FileDetail) (p : Text) (c : Changes) (x : FileDetail)
    → Among x (file_under d p c).removed
    → ((x ≡ d.1) × (text_eq d.0 (codes "removed") ≡ true)) ⊎ Among x c.removed
unfolding file_under
file_under-removed d p c x = elim (Bool-cases (text_eq d.0 (codes "removed"))) [
  | inl e ↦ rw e (λ m. elim m [ inl q ↦ inl (q, refl) | inr n ↦ inr n ])
  | inr e ↦ elim (Bool-cases (text_eq d.0 (codes "modified"))) [
    | inl g ↦ rw (e, g) (λ m. inr m)
    | inr g ↦ rw (e, g) (λ m. inr m)
  ]
]

captured_loop-removed :
    (fs : List FileEntry) (d : FileDetail)
    → Among d (captured_loop fs).removed
    → (f : FileEntry) × Among f fs × GoneFile d f
unfolding captured_loop
captured_loop-removed [] d = λ m. absurd m
captured_loop-removed (f ∷ fs) d = elim (Bool-cases (text_eq (path_value f) [])) [
  | inl e ↦ rw e (λ m. let r = captured_loop-removed fs d m in (r.0, inr r.1, r.2))
  | inr e ↦ rw e (λ m.
      elim (file_under-removed (captured_change f) (path_value f) (captured_loop fs) d m) [
        | inl q ↦ let g = captured_change-removed f q.1 in (f, inl refl, (q.0 ∙ g.0, g.1, g.2))
        | inr n ↦ let r = captured_loop-removed fs d n in (r.0, inr r.1, r.2)
      ])
]

-- Where an entry is to be found: as a removal if the report says so and shows nothing of the file, as an
-- addition if it says so but shows something, as a change, and as an addition for any other word
abbrev pub Shown : FileEntry → Changes → Type 0
Shown f c =
    if text_eq (to_lower f.change) (codes "removed")
    then (if captured_file_present f
        then Among (record (file_detail f) { change = codes "added" }) c.added
        else Among (file_detail f) c.removed)
    else if text_eq (to_lower f.change) (codes "modified")
    then Among (record { path = path_value f; before = no_detail; after = file_detail f })
        c.modified
    else Among (file_detail f) c.added

-- One list of changes that has all of another
abbrev Extends : Changes → Changes → Type 0
Extends c e =
    ((x : FileDetail) → Among x c.added → Among x e.added)
    × ((x : FileDetail) → Among x c.removed → Among x e.removed)
    × ((x : FileModified) → Among x c.modified → Among x e.modified)

Shown-Extends : (f : FileEntry) (c e : Changes) → Extends c e → Shown f c → Shown f e
Shown-Extends f c e x = elim (Bool-cases (text_eq (to_lower f.change) (codes "removed"))) [
  | inl r ↦ elim (Bool-cases (captured_file_present f)) [
    | inl there ↦ rw (r, there) (x.0 _)
    | inr bare ↦ rw (r, bare) (x.1 _)
  ]
  | inr r ↦ elim (Bool-cases (text_eq (to_lower f.change) (codes "modified"))) [
    | inl m ↦ rw (r, m) (x.2 _)
    | inr m ↦ rw (r, m) (x.0 _)
  ]
]

file_under-Extends : (d : Text × FileDetail) (p : Text) (c : Changes) → Extends c (file_under d p c)
unfolding file_under
file_under-Extends d p c = elim (Bool-cases (text_eq d.0 (codes "removed"))) [
  | inl e ↦ rw e (λ x m. m, λ x m. inr m, λ x m. m)
  | inr e ↦ elim (Bool-cases (text_eq d.0 (codes "modified"))) [
    | inl g ↦ rw (e, g) (λ x m. m, λ x m. m, λ x m. inr m)
    | inr g ↦ rw (e, g) (λ x m. inr m, λ x m. m, λ x m. m)
  ]
]

file_under-Shown :
    (f : FileEntry) (c : Changes) → Shown f (file_under (captured_change f) (path_value f) c)
unfolding file_under captured_change
file_under-Shown f c = elim (Bool-cases (text_eq (to_lower f.change) (codes "removed"))) [
  | inl r ↦ elim (Bool-cases (captured_file_present f)) [
    | inl there ↦ rw (captured_change, r, there) (inl refl)
    | inr bare ↦ rw (captured_change, r, bare, r) (inl refl)
  ]
  | inr r ↦ elim (Bool-cases (text_eq (to_lower f.change) (codes "modified"))) [
    | inl m ↦ rw (captured_change, r, m, r) (inl refl)
    | inr m ↦ rw (captured_change, r, m, r) (inl refl)
  ]
]

captured_loop-Shown :
    (fs : List FileEntry) (f : FileEntry)
    → Among f fs
    → text_eq (path_value f) [] ≡ false
    → Shown f (captured_loop fs)
unfolding captured_loop
captured_loop-Shown [] f m h = absurd m
captured_loop-Shown (g ∷ fs) f (inl e) h =
    subst (λ x. Shown f (captured_loop (x ∷ fs))) e
      (rw (captured_loop, h) (file_under-Shown f (captured_loop fs)))
captured_loop-Shown (g ∷ fs) f (inr m) h =
    let rest = captured_loop-Shown fs f m h in
    elim (Bool-cases (text_eq (path_value g) [])) [
      | inl e ↦ rw (captured_loop, e) rest
      | inr e ↦
          rw (captured_loop, e)
            (Shown-Extends f (captured_loop fs) _
              (file_under-Extends (captured_change g) (path_value g) (captured_loop fs)) rest)
    ]

sorted-Extends : (c : Changes) → Extends c (sorted c)
unfolding sorted
sorted-Extends c = (
  λ x m. (Among-sort_by (λ (f : FileDetail). f.path) x c.added).1 m,
  λ x m. (Among-sort_by (λ (f : FileDetail). f.path) x c.removed).1 m,
  λ x m. (Among-sort_by (λ (f : FileModified). f.path) x c.modified).1 m,
)

-- filesFromCapturedChanges shows every entry with a path, with its own details: as a removal if the
-- entry says so and has no hash, no size and no contents, as an addition if it says so but has some, as
-- a change if it says that, and as an addition for any other word. The three lists together are as long
-- as the entries with a path are many. And all that is listed as removed is an entry that says so and has
-- no hash, no size and no contents.
pub files_from_captured_changes-removed :
    (fs : List FileEntry)
    → ((f : FileEntry)
        → Among f fs
        → text_eq (path_value f) [] ≡ false
        → Shown f (files_from_captured_changes fs))
      × (listed (files_from_captured_changes fs) ≡ length (with_path fs))
      × ((d : FileDetail)
          → Among d (files_from_captured_changes fs).removed
          → (f : FileEntry) × Among f fs × GoneFile d f)
unfolding files_from_captured_changes sorted
files_from_captured_changes-removed fs =
    let c = captured_loop fs in
    (
      λ f m h. Shown-Extends f c (sorted c) (sorted-Extends c) (captured_loop-Shown fs f m h),
      rw
          (
            length-sort_by (λ (f : FileDetail). f.path) c.added,
            length-sort_by (λ (f : FileDetail). f.path) c.removed,
            length-sort_by (λ (f : FileModified). f.path) c.modified,
          )
          (listed-captured_loop fs),
      λ d m. captured_loop-removed fs d ((Among-sort_by (λ f. f.path) d c.removed).0 m),
    )
