-- ===== src/Compare.antt =====
-- go/internal/diff/engine.go: which files were added, removed and modified between two manifests. A Go
-- map is a list of its entries in the order in which a loop would meet them. sort.Slice is an
-- insertion sort.
pub mod Ordered
pub mod Index
pub mod Exact
pub mod Listed
pub mod Pattern
pub mod Defaults
pub mod Noise
pub mod Filter
pub mod Filtered
pub mod Twice
pub mod Hkcu
pub mod Hosts
pub mod Captured
pub mod Dns
mod Examples
use quarantine_lab.Prelude.{
  ℕ, Bool, true, false, ◌&&◌, ◌||◌, not, Option, none, some, List, [], ◌∷◌, ◌==◌, ltb,
  if◌then◌else◌, length, get_or, drop,
}
use quarantine_lab.Prelude.Int.{ℤ, pos, negsuc, eq_ℤ}
use quarantine_lab.Prelude.Text.{
  Text, codes, text_eq, text_lt, to_lower, has_prefix, has_part, has_char, has_suffix,
}

-- evidence.FileEntry, the fields that are compared or shown
pub record FileEntry : Type 0 where
  pub p : Text
  pub path : Text
  pub s : ℤ
  pub h : Text
  pub m : Text
  pub src : Text
  pub change : Text
  pub c : Text
  pub noise : Text

-- PathValue
unfoldable pub path_value : FileEntry → Text
path_value f = if not (text_eq f.p []) then f.p else f.path

pub record FileDetail : Type 0 where
  pub path : Text
  pub size : ℤ
  pub hash : Text
  pub mtime : Text
  pub src : Text
  pub change : Text
  pub noise : Text

pub record FileModified : Type 0 where
  pub path : Text
  pub before : FileDetail
  pub after : FileDetail

-- The zero value of a FileDetail
abbrev pub no_detail : FileDetail
no_detail = record {
  path = [];
  size = pos 0;
  hash = [];
  mtime = [];
  src = [];
  change = [];
  noise = [];
}

pub record Changes : Type 0 where
  pub added : List FileDetail
  pub removed : List FileDetail
  pub modified : List FileModified

-- map[string]evidence.FileEntry
abbrev pub FileMap : Type 0
FileMap = List (Text × FileEntry)

unfoldable pub get : Text → FileMap → Option FileEntry
get k [] = none
get k (e ∷ m) = if text_eq k e.0 then some e.1 else get k m

unfoldable pub put : Text → FileEntry → FileMap → FileMap
put k f [] = (k, f) ∷ []
put k f (e ∷ m) = if text_eq k e.0 then (k, f) ∷ m else e ∷ put k f m

-- The loop of indexFiles, with the map made so far
unfoldable pub index_loop : List FileEntry → FileMap → FileMap
unfolding put path_value to_lower
index_loop [] out = out
index_loop (f ∷ fs) out =
    let p = to_lower (path_value f) in
    index_loop fs (if not (text_eq p []) then put p f out else out)

-- indexFiles
unfoldable pub index_files : List FileEntry → FileMap
unfolding index_loop
index_files files = index_loop files []

-- fileDetail
unfoldable pub file_detail : FileEntry → FileDetail
unfolding path_value
file_detail f = record {
  path = path_value f;
  size = f.s;
  hash = f.h;
  mtime = f.m;
  src = f.src;
  change = f.change;
  noise = f.noise;
}

-- sort.Slice by a text of the elements
unfoldable pub insert_by {ℓ} : {A : Type ℓ} → (A → Text) → A → List A → List A
insert_by key a [] = a ∷ []
insert_by key a (b ∷ bs) =
    let rest = insert_by key a bs in if text_lt (key b) (key a) then b ∷ rest else a ∷ b ∷ bs

unfoldable pub sort_by {ℓ} : {A : Type ℓ} → (A → Text) → List A → List A
unfolding insert_by
sort_by key [] = []
sort_by key (a ∷ as') = insert_by key a (sort_by key as')

-- The loop over one map that keeps what the other does not have
unfoldable pub missing_in : FileMap → FileMap → List FileDetail
unfolding get file_detail
missing_in other [] = []
missing_in other (e ∷ m) =
    let rest = missing_in other m in
    elim (get e.0 other) [ none ↦ file_detail e.1 ∷ rest | some _ ↦ rest ]

-- lf.H != rf.H || lf.S != rf.S
unfoldable pub differs : FileEntry → FileEntry → Bool
differs lf rf = not (text_eq lf.h rf.h) || not (eq_ℤ lf.s rf.s)

unfoldable pub file_modified : FileEntry → FileEntry → FileModified
unfolding path_value file_detail
file_modified lf rf = record {
  path = path_value rf;
  before = file_detail lf;
  after = file_detail rf;
}

-- The loop over the right map that looks for other contents in the left one
unfoldable pub modified_in : FileMap → FileMap → List FileModified
unfolding get differs file_modified
modified_in left [] = []
modified_in left (e ∷ right) =
    let rest = modified_in left right in
    elim (get e.0 left) [
      | none ↦ rest
      | some lf ↦ if differs lf e.1 then file_modified lf e.1 ∷ rest else rest
    ]

-- The three calls of sort.Slice that end diffFiles and filesFromCapturedChanges
unfoldable pub sorted : Changes → Changes
unfolding sort_by
sorted c = record {
  added = sort_by (λ f. f.path) c.added;
  removed = sort_by (λ f. f.path) c.removed;
  modified = sort_by (λ f. f.path) c.modified;
}

-- diffFiles
unfoldable pub diff_files : FileMap → FileMap → Changes
unfolding missing_in modified_in sorted
diff_files left right = sorted (record {
  added = missing_in left right;
  removed = missing_in right left;
  modified = modified_in left right;
})
