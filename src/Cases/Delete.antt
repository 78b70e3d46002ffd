-- ===== src/Cases/Delete.antt =====
-- (*Store).Delete of go/internal/cases/store.go, with SafeSnapshotFileName of go/internal/config/config.go.
-- A folder is the list of the names on the way to it, the last one last.
use quarantine_lab.Prelude.{
  ℕ, ◌≡◌, refl, sym, ap, ap₂, ◌∙◌, inl, inr, false≢true, Bool, true, false, ◌||◌, Option, none,
  some, List, [], ◌∷◌, ◌++◌, map, arith, Bool-cases, ◌==◌, ==_iff, if◌then◌else◌, get_or, drop,
}
use mathlib.Core.List.{reverse}
use quarantine_lab.Cases.Trim.{trim_space-twice}
use quarantine_lab.Prelude.Text.{
  Text, codes, text_eq, text_eq→eq, text_eq_self, trim_space, trim_left, is_space, has_char,
  replace_char,
}

-- The characters that no file name may have
abbrev pub invalid : Text
invalid = codes "<>:\"/\\|?*"

unfoldable pub replace_all : Text → Text → Text
unfolding replace_char
replace_all [] s = s
replace_all (c ∷ cs) s = replace_all cs (replace_char c b'_' s)

-- SafeSnapshotFileName
unfoldable pub safe_snapshot_file_name : Text → Text
unfolding replace_all trim_space
safe_snapshot_file_name name = replace_all invalid (trim_space name)

abbrev pub parent : List Text → List Text
parent root = reverse (drop 1 (reverse root))

-- filepath.Join of a folder and a text without separators
unfoldable pub join_name : List Text → Text → List Text
join_name root name =
    if text_eq name [] || text_eq name (codes ".")
    then root
    else if text_eq name (codes "..")
    then parent root
    else root ++ (name ∷ [])

-- (*Store).dir
unfoldable pub dir : List Text → Text → List Text
unfolding join_name safe_snapshot_file_name
dir root id = join_name root (safe_snapshot_file_name id)

-- Delete: the folder that os.RemoveAll is called for, or nothing for an invalid id
unfoldable pub delete : List Text → Text → Option (List Text)
unfolding trim_space has_char dir
delete root id =
    let t = trim_space id in
    if text_eq t [] || (has_char b'/' t || has_char b'\\' t) then none else some (dir root t)

-- A character that is not the underscore was there before.
replace_char-eq : (a : ℕ) (s d : Text) → has_char b'_' d ≡ false → replace_char a b'_' s ≡ d → s ≡ d
unfolding replace_char has_char
replace_char-eq a [] d h e = e
replace_char-eq a (c ∷ s) [] h e = absurd cc
replace_char-eq a (c ∷ s) (x ∷ d) h e = elim (Bool-cases (c == a)) [
  | inl hit ↦
      let y : b'_' ≡ x = ap (λ t. get_or t 0 b'_') (rw hit at e) in
      absurd (false≢true (sym h ∙ (rw ((==_iff b'_' x).1 y) refl)))
  | inr miss ↦
      ap₂ ◌∷◌ (ap (λ t. get_or t 0 c) (rw miss at e))
        (replace_char-eq a s d (rest_free (b'_' == x) (has_char b'_' d) h) (ap (drop 1) e))
]
  where
    rest_free : (p q : Bool) → (p || q) ≡ false → q ≡ false
    rest_free p q k = ground arith

replace_all-eq : (cs s d : Text) → has_char b'_' d ≡ false → replace_all cs s ≡ d → s ≡ d
unfolding replace_all
replace_all-eq [] s d h e = e
replace_all-eq (c ∷ cs) s d h e =
    replace_char-eq c s d h (replace_all-eq cs (replace_char c b'_' s) d h e)

-- A safe name without an underscore is the name itself, trimmed.
safe_snapshot_file_name-eq :
    (s d : Text)
    → has_char b'_' d ≡ false
    → text_eq (safe_snapshot_file_name s) d ≡ true
    → trim_space s ≡ d
unfolding safe_snapshot_file_name
safe_snapshot_file_name-eq s d h e =
    replace_all-eq invalid (trim_space s) d h (text_eq→eq (safe_snapshot_file_name s) d e)

-- A name with an underscore for every character that no file name may have
abbrev pub spelled : Text → Text
spelled s = map (λ c. if has_char c invalid then b'_' else c) s

marked_char :
    (c x : ℕ) (cs : Text)
    → has_char b'_' cs ≡ false
    → (if has_char (if x == c then b'_' else x) cs then b'_' else (if x == c then b'_' else x))
      ≡ (if has_char x (c ∷ cs) then b'_' else x)
unfolding has_char
marked_char c x cs h = elim (Bool-cases (x == c)) [ inl e ↦ rw (e, h) refl | inr e ↦ rw e refl ]

marked_both :
    (c : ℕ) (cs s : Text)
    → has_char b'_' cs ≡ false
    → map (λ x. if has_char x cs then b'_' else x) (map (λ x. if x == c then b'_' else x) s)
      ≡ map (λ x. if has_char x (c ∷ cs) then b'_' else x) s
marked_both c cs [] h = refl
marked_both c cs (x ∷ s) h = ap₂ ◌∷◌ (marked_char c x cs h) (marked_both c cs s h)

unmarked : (s : Text) → map (λ x. if has_char x [] then b'_' else x) s ≡ s
unfolding has_char
unmarked [] = refl
unmarked (x ∷ s) = ap (λ t. x ∷ t) (unmarked s)

no_mark : (c : ℕ) (cs : Text) → has_char b'_' (c ∷ cs) ≡ false → has_char b'_' cs ≡ false
unfolding has_char
no_mark c cs h = ground arith

replace_all-map :
    (cs s : Text)
    → has_char b'_' cs ≡ false
    → replace_all cs s ≡ map (λ c. if has_char c cs then b'_' else c) s
unfolding replace_all replace_char
replace_all-map [] s h = sym (unmarked s)
replace_all-map (c ∷ cs) s h =
    replace_all-map cs (replace_char c b'_' s) (no_mark c cs h)
    ∙ marked_both c cs s (no_mark c cs h)

safe_snapshot_file_name-spelled :
    (t : Text) → trim_space t ≡ t → safe_snapshot_file_name t ≡ spelled t
unfolding safe_snapshot_file_name has_char
safe_snapshot_file_name-spelled t e = ap (replace_all invalid) e ∙ replace_all-map invalid t refl

-- A name that has no underscore is spelled like that only if it was it before.
safe_snapshot_file_name-same :
    (t d : Text)
    → trim_space t ≡ t
    → has_char b'_' d ≡ false
    → safe_snapshot_file_name d ≡ d
    → text_eq (safe_snapshot_file_name t) d ≡ text_eq t d
safe_snapshot_file_name-same t d e h k = elim (Bool-cases (text_eq t d)) [
  | inl same ↦
      ap (λ x. text_eq (safe_snapshot_file_name x) d) (text_eq→eq t d same)
      ∙ ap (λ x. text_eq x d) k
      ∙ text_eq_self d
      ∙ sym same
  | inr apart ↦ elim (Bool-cases (text_eq (safe_snapshot_file_name t) d)) [
    | inr n ↦ n ∙ sym apart
    | inl n ↦ absurd (
        false≢true (
          sym apart
          ∙ ap (λ x. text_eq x d) (sym e ∙ safe_snapshot_file_name-eq t d h n)
          ∙ text_eq_self d))
  ]
]

dir_lem :
    (root : List Text) (t : Text)
    → trim_space t ≡ t
    → text_eq t [] ≡ false
    → dir root t ≡ (
        if text_eq t (codes ".")
        then root
        else if text_eq t (codes "..")
        then parent root
        else root ++ (spelled t ∷ []))
unfolding dir join_name safe_snapshot_file_name replace_all trim_space trim_left is_space has_char
    replace_char
dir_lem root t e b =
    let blank = safe_snapshot_file_name-same t [] e refl refl ∙ b in
    let dot = safe_snapshot_file_name-same t (codes ".") e refl refl in
    let dots = safe_snapshot_file_name-same t (codes "..") e refl refl in
    rw (dir, join_name, blank, dot, dots, safe_snapshot_file_name-spelled t e) refl

-- What Delete removes. It refuses an id that is blank or has a slash or a backslash. For any other it
-- removes, with the white space around the id taken off: the whole store for the id ".", the folder above
-- the store for "..", and else the folder of the store whose name is the id with an underscore for
-- every character that no file name may have.
pub delete_lem :
    (root : List Text) (id : Text)
    → let t = trim_space id in
      delete root id ≡ (
        if text_eq t [] || (has_char b'/' t || has_char b'\\' t)
        then none
        else if text_eq t (codes ".")
        then some root
        else if text_eq t (codes "..")
        then some (parent root)
        else some (root ++ (spelled t ∷ [])))
unfolding delete dir join_name
delete_lem root id =
    let t = trim_space id in
    elim (Bool-cases (text_eq t [] || (has_char b'/' t || has_char b'\\' t))) [
      | inl refused ↦ rw (delete, refused) refl
      | inr ok ↦
          rw (delete, ok, dir_lem root t (trim_space-twice id) (first_false (text_eq t []) _ ok))
            (choice (text_eq t (codes ".")) (text_eq t (codes "..")) root (parent root) _)
    ]
  where
    first_false : (p q : Bool) → (p || q) ≡ false → p ≡ false
    first_false p q h = ground arith

    choice :
        (p q : Bool) (a b c : List Text)
        → some (if p then a else if q then b else c)
          ≡ (if p then some a else if q then some b else some c)
    choice true q a b c = refl
    choice false true a b c = refl
    choice false false a b c = refl
