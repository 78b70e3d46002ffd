-- ===== src/Cases.antt =====
-- go/internal/cases/store.go: saved comparisons. The files of one case are a list of names and contents,
-- a write puts the newest first. `hash` is the hexadecimal text of the first eight bytes of SHA-256,
-- `writes` tells whether os.WriteFile succeeds for a name, `clean` is filepath.Clean,
-- `from_slash` is filepath.FromSlash; the files are known by the paths below the folder, as the host writes
-- them;  and JSON that is
-- written is what is read.
pub mod Names
pub mod Steps
pub mod Reads
pub mod RoundTrip
pub mod Trim
pub mod Delete
mod Examples
use quarantine_lab.Prelude.{
  ℕ, suc, ◌+◌, ◌*◌, Bool, true, false, ◌&&◌, ◌||◌, not, Option, none, some, List, [], ◌∷◌, ◌++◌,
  ◌==◌, ltb, if◌then◌else◌, length, take,
}
use quarantine_lab.Prelude.Int.{ℤ, pos, negsuc}
use quarantine_lab.Prelude.Text.{
  Text, codes, text_eq, to_lower, trim_space, has_prefix, has_char, replace_char,
}
use quarantine_lab.Compare.{FileDetail, FileModified, Changes}

pub data Side : Type 0 where
  from_side to_side : Side

-- cases.Body; `data` is the file's bytes.
pub record Body : Type 0 where
  pub bytes : List ℕ
  pub truncated : Bool
  pub unavailable : Bool
  pub reason : Text

-- One side of a BodyEntry
pub record SideEntry : Type 0 where
  pub rel : Text
  pub truncated : Bool
  pub unavailable : Bool
  pub reason : Text

pub record BodyEntry : Type 0 where
  pub from : SideEntry
  pub to : SideEntry

abbrev pub no_side : SideEntry
no_side = record { rel = []; truncated = false; unavailable = false; reason = [] }

-- The zero value of a BodyEntry
abbrev pub no_entry : BodyEntry
no_entry = record { from = no_side; to = no_side }

-- bodies-index.json, and the files below the folder of a case
abbrev pub BodyIndex : Type 0
BodyIndex = List (Text × BodyEntry)

abbrev pub CaseFiles : Type 0
CaseFiles = List (Text × List ℕ)

-- The state of Save while it collects
pub record Pack : Type 0 where
  pub index : BodyIndex
  pub files : CaseFiles
  pub bodies : ℕ

unfoldable pub lookup : {A : Type 0} → Text → List (Text × A) → Option A
lookup k [] = none
lookup k (e ∷ m) = if text_eq k e.0 then some e.1 else lookup k m

-- normalizeIndexPath
unfoldable pub normalize_index_path : Text → Text
unfolding trim_space replace_char to_lower
normalize_index_path p = to_lower (replace_char b'/' b'\\' (trim_space p))

abbrev pub extension : Side → Text
extension from_side = codes "from"
extension to_side = codes "to"

-- The name that writeBodyFile gives a file, with slashes whatever the host's separator is
unfoldable pub body_name : (Text → Text) → Text → Side → Text
unfolding to_lower
body_name hash guest_path side =
    codes "bodies/" ++ (hash (to_lower guest_path) ++ (codes "." ++ extension side))

-- max, when the request gives none
unfoldable pub body_cap : ℤ → ℕ
body_cap (pos n) = if n == 0 then 4 * 1048576 else n
body_cap (negsuc n) = 4 * 1048576

-- The cut of a body that is too long
unfoldable pub clip : ℕ → Body → Body
clip max b =
    if ltb max (length b.bytes) then record b { bytes = take max b.bytes; truncated = true } else b

-- The entry of one side after its body was written under a name, or not
unfoldable pub side_entry : Text → Body → SideEntry
side_entry rel b = record {
  rel = rel;
  truncated = b.truncated;
  unavailable = b.unavailable || (text_eq rel [] && length b.bytes == 0);
  reason = b.reason;
}

unfoldable pub set_side : Side → SideEntry → BodyEntry → BodyEntry
set_side from_side s e = record e { from = s }
set_side to_side s e = record e { to = s }

unfoldable pub side_of : Side → BodyEntry → SideEntry
side_of from_side e = e.from
side_of to_side e = e.to

-- index[key]
unfoldable pub entry_at : Text → BodyIndex → BodyEntry
unfolding lookup
entry_at key index = elim (lookup key index) [ none ↦ no_entry | some e ↦ e ]

-- A loader of Request, which may be nil
abbrev pub Loader : Type 0
Loader = Option (Text → Body)

abbrev pub is_nil : Loader → Bool
is_nil none = true
is_nil (some load) = false

-- load(path); a nil loader is not called.
abbrev pub load_body : Loader → Text → Body
load_body none path = record { bytes = []; truncated = false; unavailable = false; reason = [] }
load_body (some load) path = load path

-- The paths for which `collect` returns at once
abbrev pub skips_path : Text → Loader → Bool
skips_path path load = text_eq (trim_space path) [] || is_nil load

module _ (hash from_slash : Text → Text) (writes : Text → Bool) where
  -- writeBodyFile: the name, which is empty without a file, and the files
  unfoldable pub write_body_file : Text → Side → List ℕ → CaseFiles → Text × CaseFiles
  unfolding body_name
  write_body_file key side bytes files =
      let rel = body_name hash key side in
      if length bytes == 0
      then ([], files)
      else if writes (from_slash rel)
      then (rel, (from_slash rel, bytes) ∷ files)
      else ([], files)

  -- The closure `collect` of Save
  unfoldable pub collect : ℕ → Text → Side → Loader → Pack → Pack
  unfolding trim_space normalize_index_path clip write_body_file entry_at set_side side_entry
  collect max guest_path side load pack =
      let path = trim_space guest_path in
      let key = normalize_index_path path in
      let b = clip max (load_body load path) in
      let written = write_body_file key side b.bytes pack.files in
      if skips_path guest_path load then pack else record {
        index =
            (key, set_side side (side_entry written.0 b) (entry_at key pack.index)) ∷ pack.index;
        files = written.1;
        bodies = if text_eq written.0 [] then pack.bodies else suc pack.bodies;
      }

  unfoldable pub collect_added : ℕ → Loader → List FileDetail → Pack → Pack
  unfolding collect
  collect_added max load [] pack = pack
  collect_added max load (f ∷ fs) pack =
      collect_added max load fs (collect max f.path to_side load pack)

  unfoldable pub collect_removed : ℕ → Loader → Loader → List FileDetail → Pack → Pack
  unfolding collect
  collect_removed max load_from load_to [] pack = pack
  collect_removed max load_from load_to (f ∷ fs) pack =
      collect_removed max load_from load_to fs
        (collect max f.path to_side load_to (collect max f.path from_side load_from pack))

  unfoldable pub collect_modified : ℕ → Loader → Loader → List FileModified → Pack → Pack
  unfolding collect
  collect_modified max load_from load_to [] pack = pack
  collect_modified max load_from load_to (m ∷ ms) pack =
      let p = if text_eq m.path [] then m.after.path else m.path in
      collect_modified max load_from load_to ms
        (collect max p to_side load_to (collect max p from_side load_from pack))

  -- The bodies that Save archives for the files of a comparison
  unfoldable pub save_bodies : ℤ → Loader → Loader → Changes → Pack
  unfolding body_cap collect_added collect_removed collect_modified
  save_bodies max_body_bytes load_from load_to files =
      let max = body_cap max_body_bytes in
      collect_modified max load_from load_to files.modified (
        collect_removed max load_from load_to files.removed
          (collect_added max load_to files.added (record { index = []; files = []; bodies = 0 })))

-- readRel: what is read, or nothing on an error
unfoldable pub read_rel : (Text → Text) → (Text → Text) → CaseFiles → Text → Option (List ℕ)
unfolding trim_space has_prefix lookup
read_rel from_slash clean files rel =
    let name = trim_space rel in
    if text_eq name []
    then some []
    else if has_prefix (clean (from_slash name)) (codes "..")
    then none
    else lookup (clean (from_slash name)) files

-- The key of the index that ReadBodies takes: the normalized path, or else one that is equal to it but
-- for capitals
unfoldable pub find_entry : Text → BodyIndex → Option BodyEntry
unfolding lookup to_lower
find_entry key index = elim (lookup key index) [ some e ↦ some e | none ↦ equal_fold index ]
  where
    equal_fold : BodyIndex → Option BodyEntry
    equal_fold [] = none
    equal_fold (e ∷ m) = if text_eq (to_lower e.0) (to_lower key) then some e.1 else equal_fold m

-- ReadBodies after its index was read: both sides with their entry, or nothing on an error
unfoldable pub read_bodies :
    (Text → Text) → (Text → Text) → Pack → Text → Option (List ℕ × (List ℕ × BodyEntry))
unfolding find_entry normalize_index_path read_rel
read_bodies from_slash clean pack guest_path =
    elim (find_entry (normalize_index_path guest_path) pack.index) [
      | none ↦ none
      | some e ↦ elim (read_rel from_slash clean pack.files e.from.rel) [
        | none ↦ none
        | some from ↦ elim (read_rel from_slash clean pack.files e.to.rel) [
          | none ↦ none
          | some to ↦ some (from, (to, e))
        ]
      ]
    ]
