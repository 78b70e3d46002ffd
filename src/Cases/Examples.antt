-- ===== src/Cases/Examples.antt =====
-- A removed file whose old contents are archived on Windows, a new file, and some ids
use quarantine_lab.Prelude.{
  ◌≡◌, refl, ap, sym, ◌∙◌, inl, inr, false≢true, true, false, none, some, List, [], ◌∷◌, ◌++◌, ◌||◌,
  Bool-cases, if◌then◌else◌, length,
}
use quarantine_lab.Prelude.Int.{pos}
use quarantine_lab.Prelude.Text.{
  Text, codes, text_eq, to_lower, trim_space, trim_left, is_space, replace_char, has_char,
  has_prefix,
}
use quarantine_lab.Compare.{no_detail, FileDetail, Changes}
use quarantine_lab.Cases.{
  Side, from_side, to_side, side_of, Body, BodyEntry, body_name, body_cap, clip,
  normalize_index_path, save_bodies, read_bodies,
}
use quarantine_lab.Cases.Delete.{
  delete, dir, join_name, safe_snapshot_file_name, replace_all, parent, spelled, delete_lem,
}
use quarantine_lab.Cases.Reads.{Unshared}
use quarantine_lab.Cases.RoundTrip.{NamesOwn, calls, loader, save_bodies-read_bodies}

abbrev short_hash : Text → Text
short_hash t =
    if text_eq t (codes "c:\\a") then codes "aaaaaaaaaaaaaaaa" else codes "bbbbbbbbbbbbbbbb"

short_hash-length : (t : Text) → length (short_hash t) ≡ 16
short_hash-length t = elim (Bool-cases (text_eq t (codes "c:\\a"))) [
  | inl e ↦ rw e refl
  | inr e ↦ rw e refl
]

abbrev detail : Text → FileDetail
detail p = record no_detail { path = p }

abbrev changes : Changes
changes = record {
  added = detail (codes "C:/b") ∷ [];
  removed = detail (codes " C:/A") ∷ [];
  modified = [];
}

abbrev old_body : Text → Body
old_body p = record { bytes = codes "old"; truncated = false; unavailable = false; reason = [] }

abbrev no_body : Text → Body
no_body p = record {
  bytes = [];
  truncated = false;
  unavailable = true;
  reason = codes "no_sidecar";
}

-- filepath.FromSlash on Windows
abbrev windows : Text → Text
windows t = replace_char b'/' b'\\' t

windows_undone :
    (k : Text) (s : Side)
    → replace_char b'\\' b'/' (windows (body_name short_hash k s)) ≡ body_name short_hash k s
unfolding body_name replace_char
windows_undone k from_side = elim (Bool-cases (text_eq (to_lower k) (codes "c:\\a"))) [
  | inl e ↦ rw (body_name, e) refl
  | inr e ↦ rw (body_name, e) refl
]
windows_undone k to_side = elim (Bool-cases (text_eq (to_lower k) (codes "c:\\a"))) [
  | inl e ↦ rw (body_name, e) refl
  | inr e ↦ rw (body_name, e) refl
]

windows_names :
    (j : Text) (t : Side)
    → (windows (body_name short_hash j t) ≡ windows (body_name short_hash j t))
      × (has_prefix (windows (body_name short_hash j t)) (codes "..") ≡ false)
      × ((k : Text) (s : Side)
          → windows (body_name short_hash k s) ≡ windows (body_name short_hash j t)
          → body_name short_hash k s ≡ body_name short_hash j t)
unfolding body_name replace_char has_prefix
windows_names j t = (
  refl,
  refl,
  λ k s e. sym (windows_undone k s) ∙ ap (replace_char b'\\' b'/') e ∙ windows_undone j t,
)

keys_apart :
    Unshared short_hash windows
      (λ n. true)
      (λ n. n)
      short_hash-length
      windows_names
      2
      (loader (some old_body) none)
      (codes "c:\\a")
      (calls changes)
unfolding normalize_index_path trim_space trim_left is_space replace_char to_lower
keys_apart = (
  (λ e. absurd (false≢true (ap (λ t. text_eq t (codes "aaaaaaaaaaaaaaaa")) e))),
  ((λ e. refl), ((λ e. refl), tt)),
)

-- There is no loader for the new side.
save_bodies-read_bodies_example :
    (e : BodyEntry) × (read_bodies windows
        (λ n. n)
        (save_bodies short_hash windows (λ n. true) (pos 2) (some old_body) none changes)
        (codes "c:\\A")
      ≡ some (codes "ol", ([], e)))
    × ((side : Side)
        → NamesOwn short_hash (normalize_index_path (codes "c:\\A")) side (side_of side e).rel)
unfolding normalize_index_path trim_space trim_left is_space replace_char to_lower body_cap clip
    body_name
save_bodies-read_bodies_example =
    save_bodies-read_bodies short_hash windows (λ n. true) (λ n. n) short_hash-length windows_names
      (some old_body) none (pos 2) changes (codes "c:\\A") (codes "ol") [] keys_apart refl refl

abbrev store_root : List Text
store_root = codes "logs" ∷ codes "cases" ∷ []

-- The folder that holds the store is removed.
delete_dots : delete store_root (codes " ..") ≡ some (codes "logs" ∷ [])
unfolding delete dir join_name safe_snapshot_file_name replace_all trim_space trim_left is_space
delete_dots = refl

delete_lem_example : delete store_root (codes " a:b") ≡ (
    if text_eq (codes "a:b") [] || (has_char b'/' (codes "a:b") || has_char b'\\' (codes "a:b"))
    then none
    else if text_eq (codes "a:b") (codes ".")
    then some store_root
    else if text_eq (codes "a:b") (codes "..")
    then some (parent store_root)
    else some (store_root ++ (spelled (codes "a:b") ∷ [])))
unfolding trim_space trim_left is_space
delete_lem_example = delete_lem store_root (codes " a:b")
