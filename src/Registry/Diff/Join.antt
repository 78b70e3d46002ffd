-- ===== src/Registry/Diff/Join.antt =====
-- DiffIndexes answers what two lookups in the other index would.
use quarantine_lab.Prelude.{
  ◌≡◌, refl, sym, ap, ap₂, subst, ◌∙◌, true, false, not, Option, none, some, List, [], ◌∷◌, ◌++◌,
  if◌then◌else◌,
}
use quarantine_lab.Prelude.Text.{
  Text, text_lt, text_eq, text_lt_trans, text_lt-apart, text_eq_sym, text_eq→eq,
}
use quarantine_lab.Registry.Index.{IndexRecord, sort_key}
use quarantine_lab.Registry.Diff.{ValueChange, IndexDiff, value_change}

-- The record with a key
unfoldable pub find : Text → List IndexRecord → Option IndexRecord
find k [] = none
find k (r ∷ rs) = if text_eq k (sort_key r) then some r else find k rs

abbrev pub keep_if_none : IndexRecord → Option IndexRecord → List IndexRecord → List IndexRecord
keep_if_none r none rest = r ∷ rest
keep_if_none r (some q) rest = rest

abbrev pub change_if : IndexRecord → Option IndexRecord → List ValueChange → List ValueChange
change_if r none rest = rest
change_if r (some q) rest = if not (text_eq r.h q.h) then value_change r q ∷ rest else rest

-- The records of the first list whose key the second does not have.
unfoldable pub missing : List IndexRecord → List IndexRecord → List IndexRecord
unfolding find
missing [] bs = []
missing (a ∷ as') bs = keep_if_none a (find (sort_key a) bs) (missing as' bs)

-- The changes of the keys that both lists have, where the hashes differ.
unfoldable pub changed : List IndexRecord → List IndexRecord → List ValueChange
unfolding find
changed [] bs = []
changed (a ∷ as') bs = change_if a (find (sort_key a) bs) (changed as' bs)

unfoldable pub difference : List IndexRecord → List IndexRecord → IndexDiff
unfolding missing changed
difference as' bs = record {
  added = missing bs as';
  removed = missing as' bs;
  modified = changed as' bs;
}

unfoldable pub append_diff : IndexDiff → IndexDiff → IndexDiff
append_diff x y = record {
  added = x.added ++ y.added;
  removed = x.removed ++ y.removed;
  modified = x.modified ++ y.modified;
}

-- Each key is above a key.
abbrev pub Above : Text → List IndexRecord → Type 0
Above k [] = Unit
Above k (r ∷ rs) = (text_lt k (sort_key r) ≡ true) × Above k rs

abbrev pub Increasing : List IndexRecord → Type 0
Increasing [] = Unit
Increasing (r ∷ rs) = Above (sort_key r) rs × Increasing rs

Above-lt : (j k : Text) (rs : List IndexRecord) → text_lt j k ≡ true → Above k rs → Above j rs
Above-lt j k [] l a = tt
Above-lt j k (r ∷ rs) l a = (text_lt_trans j k (sort_key r) l a.0, Above-lt j k rs l a.1)

find-Above : (k : Text) (rs : List IndexRecord) → Above k rs → find k rs ≡ none
unfolding find
find-Above k [] a = refl
find-Above k (r ∷ rs) a = rw (text_lt-apart k (sort_key r) a.0) (find-Above k rs a.1)

apart_sym : (j k : Text) → text_lt j k ≡ true → text_eq k j ≡ false
apart_sym j k l = text_eq_sym k j ∙ text_lt-apart j k l

find_skip :
    (k : Text) (r : IndexRecord) (rs : List IndexRecord)
    → text_lt (sort_key r) k ≡ true
    → find k (r ∷ rs) ≡ find k rs
unfolding find
find_skip k r rs l = rw (apart_sym (sort_key r) k l) refl

-- A record below all keys of the first list takes no part.
missing_skip :
    (as' : List IndexRecord) (r : IndexRecord) (rs : List IndexRecord)
    → Above (sort_key r) as'
    → missing as' (r ∷ rs) ≡ missing as' rs
unfolding missing
missing_skip [] r rs a = refl
missing_skip (b ∷ bs) r rs a =
    ap₂ (keep_if_none b) (find_skip (sort_key b) r rs a.0) (missing_skip bs r rs a.1)

changed_skip :
    (as' : List IndexRecord) (r : IndexRecord) (rs : List IndexRecord)
    → Above (sort_key r) as'
    → changed as' (r ∷ rs) ≡ changed as' rs
unfolding changed
changed_skip [] r rs a = refl
changed_skip (b ∷ bs) r rs a =
    ap₂ (change_if b) (find_skip (sort_key b) r rs a.0) (changed_skip bs r rs a.1)

pub changed_nil : (as' : List IndexRecord) → changed as' [] ≡ []
unfolding changed find
changed_nil [] = refl
changed_nil (a ∷ as') = changed_nil as'

abbrev pub IsLess : IndexRecord → IndexRecord → Type 0
IsLess a b = text_lt (sort_key a) (sort_key b) ≡ true

pub diff_eq :
    {r₁ r₂ a₁ a₂ : List IndexRecord} {m₁ m₂ : List ValueChange}
    → a₁ ≡ a₂
    → r₁ ≡ r₂
    → m₁ ≡ m₂
    → Path IndexDiff
        (record { added = a₁; removed = r₁; modified = m₁ })
        (record { added = a₂; removed = r₂; modified = m₂ })
diff_eq e f g i = record { added = e i; removed = f i; modified = g i }

module _ (a b : IndexRecord) (as' bs : List IndexRecord) where
  pub difference_less :
      IsLess a b
      → Above (sort_key b) bs
      → difference (a ∷ as') (b ∷ bs)
        ≡ record (difference as' (b ∷ bs)) { removed = a ∷ (difference as' (b ∷ bs)).removed }
  unfolding difference missing changed
  difference_less l ab =
      let alone =
        find-Above (sort_key a) (b ∷ bs) (l, Above-lt (sort_key a) (sort_key b) bs l ab) in
      diff_eq (missing_skip (b ∷ bs) a as' (l, Above-lt (sort_key a) (sort_key b) bs l ab))
        (ap (λ o. keep_if_none a o (missing as' (b ∷ bs))) alone)
        (ap (λ o. change_if a o (changed as' (b ∷ bs))) alone)

  pub difference_greater :
      IsLess b a
      → Above (sort_key a) as'
      → difference (a ∷ as') (b ∷ bs)
        ≡ record (difference (a ∷ as') bs) { added = b ∷ (difference (a ∷ as') bs).added }
  unfolding difference missing changed
  difference_greater l aa =
      let above : Above (sort_key b) (a ∷ as') = (l, Above-lt (sort_key b) (sort_key a) as' l aa) in
      diff_eq
        (ap (λ o. keep_if_none b o (missing bs (a ∷ as')))
          (find-Above (sort_key b) (a ∷ as') above))
        (missing_skip (a ∷ as') b bs above) (changed_skip (a ∷ as') b bs above)

  pub difference_same :
      text_eq (sort_key a) (sort_key b) ≡ true
      → Above (sort_key a) as'
      → Above (sort_key b) bs
      → difference (a ∷ as') (b ∷ bs) ≡ record (difference as' bs) {
        modified = change_if a (some b) (difference as' bs).modified;
      }
  unfolding difference missing changed find
  difference_same e aa ab =
      let k : sort_key a ≡ sort_key b = text_eq→eq (sort_key a) (sort_key b) e in
      diff_eq
        (ap
            (λ c.
              keep_if_none b (if c then some a else find (sort_key b) as') (missing bs (a ∷ as')))
            (text_eq_sym (sort_key b) (sort_key a) ∙ e)
          ∙ missing_skip bs a as' (subst_above bs k ab))
        (ap
            (λ c.
              keep_if_none a (if c then some b else find (sort_key a) bs) (missing as' (b ∷ bs)))
            e
          ∙ missing_skip as' b bs (subst_above as' (sym k) aa))
        (ap (λ c. change_if a (if c then some b else find (sort_key a) bs) (changed as' (b ∷ bs))) e
          ∙ ap (change_if a (some b)) (changed_skip as' b bs (subst_above as' (sym k) aa)))
    where
      subst_above : {j k : Text} (rs : List IndexRecord) → j ≡ k → Above k rs → Above j rs
      subst_above rs p x = subst (λ t. Above t rs) (sym p) x
