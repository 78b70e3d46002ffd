-- ===== src/Registry/Diff/Answer.antt =====
-- DiffIndexes as a whole: the lines of both indexes are read to their ends.
use quarantine_lab.Prelude.{
  ℕ, zero, suc, ◌+◌, ◌<◌, ◌≤◌, ◌≡◌, refl, sym, ap, ap₂, subst, ◌∙◌, Bool, true, false, ◌||◌, Option,
  none, some, List, [], ◌∷◌, append_assoc, append-nil, if◌then◌else◌, length, arith, Bool-cases,
  inl, inr,
}
use quarantine_lab.Prelude.Text.{Text, text_lt, text_eq, text_lt_total}
use quarantine_lab.Registry.Index.{
  IndexRecord, sort_key, Line, decoded, malformed, IndexReader, Advance, scan, next, open_index,
  is_some,
}
use quarantine_lab.Registry.Diff.{
  IndexDiff, value_change, Joining, Diffed, diffed, next_a, next_b, with_removed, with_added,
  with_modified, join_both, join_round, or_error, ahead, join_loop, start_join, diff_indexes,
}
use quarantine_lab.Registry.Diff.Join.{
  change_if, difference, append_diff, missing, changed, Increasing, diff_eq, difference_less,
  difference_greater, difference_same,
}

-- The records in front of the first line that does not decode.
unfoldable pub records : List Line → List IndexRecord
records [] = []
records (malformed e ∷ ls) = []
records (decoded r ∷ ls) = r ∷ records ls

-- The error that reading ends with.
unfoldable pub read_error : List Line → Option Text → Option Text
read_error [] e = e
read_error (malformed f ∷ ls) e = some f
read_error (decoded r ∷ ls) e = read_error ls e

-- The records that a reader has still to give, with the one it stands at, and its error in the end.
unfoldable pub left : Bool → IndexReader → List IndexRecord
unfolding records
left false r = []
left true r = r.rec ∷ records r.lines

unfoldable pub error_left : Bool → IndexReader → Option Text
unfolding read_error
error_left false r = r.err
error_left true r = read_error r.lines r.scan_err

-- A reader that stands at a record has met no error and no end.
abbrev pub IsAt : Bool → IndexReader → Type 0
IsAt false r = Unit
IsAt true r = (r.err ≡ none) × (r.eof ≡ false)

record Scanned (r : IndexReader) (x : Advance) : Type 0 where
  is_at : IsAt x.ok x.reader
  given : left x.ok x.reader ≡ records r.lines
  error : error_left x.ok x.reader ≡ read_error r.lines r.scan_err

scan-Scanned :
    (r : IndexReader) (ls : List Line) → IsAt true r → r.lines ≡ ls → Scanned r (scan r ls)
unfolding scan left error_left records read_error
scan-Scanned r [] h e = record {
  is_at = tt;
  given = ap records (sym e);
  error = ap (λ l. read_error l r.scan_err) (sym e);
}
scan-Scanned r (malformed f ∷ ls) h e = record {
  is_at = tt;
  given = ap records (sym e);
  error = ap (λ l. read_error l r.scan_err) (sym e);
}
scan-Scanned r (decoded q ∷ ls) h e = record {
  is_at = h;
  given = ap records (sym e);
  error = ap (λ l. read_error l r.scan_err) (sym e);
}

next-Scanned : (r : IndexReader) → IsAt true r → Scanned r (next r)
unfolding next
next-Scanned r h = subst (Scanned r) (sym open_next) (scan-Scanned r r.lines h refl)
  where
    open_next : next r ≡ scan r r.lines
    open_next =
        ap₂ (λ x y. if x || is_some y then record { ok = false; reader = r } else scan r r.lines)
          h.1 h.0

-- The result for what is left on both sides, after `out`.
abbrev answer : List IndexRecord → List IndexRecord → Option Text → Option Text → IndexDiff → Diffed
answer as' bs ea eb out = or_error ea eb (diffed (append_diff out (difference as' bs)))

answer_eq :
    {as' cs bs ds : List IndexRecord} {ea fa eb fb : Option Text} (out : IndexDiff)
    → as' ≡ cs
    → bs ≡ ds
    → ea ≡ fa
    → eb ≡ fb
    → answer as' bs ea eb out ≡ answer cs ds fa fb out
answer_eq out p q e f i = answer (p i) (q i) (e i) (f i) out

append-removed :
    (out d : IndexDiff) (r : IndexRecord)
    → append_diff (with_removed out r) d ≡ append_diff out (record d { removed = r ∷ d.removed })
unfolding append_diff
append-removed out d r = diff_eq refl (append_assoc out.removed (r ∷ []) d.removed) refl

append-added :
    (out d : IndexDiff) (r : IndexRecord)
    → append_diff (with_added out r) d ≡ append_diff out (record d { added = r ∷ d.added })
unfolding append_diff
append-added out d r = diff_eq (append_assoc out.added (r ∷ []) d.added) refl refl

append-modified :
    (out d : IndexDiff) (ra rb : IndexRecord)
    → append_diff (with_modified out ra rb) d
      ≡ append_diff out (record d { modified = change_if ra (some rb) d.modified })
unfolding append_diff
append-modified out d ra rb = elim (Bool-cases (text_eq ra.h rb.h)) [
  | inl same ↦ rw same refl
  | inr differs ↦
      rw differs
        (diff_eq refl refl (append_assoc out.modified (value_change ra rb ∷ []) d.modified))
]

abbrev joining : Bool → IndexReader → Bool → IndexReader → IndexDiff → Joining
joining ao a bo b out = record { a_ok = ao; a = a; b_ok = bo; b = b; out = out }

-- The loop gives its answer with some fuel.
abbrev Answers : ℕ → Type 0
Answers fuel =
    (ao : Bool) (a : IndexReader) (bo : Bool) (b : IndexReader) (out : IndexDiff)
    → IsAt ao a
    → IsAt bo b
    → Increasing (left ao a)
    → Increasing (left bo b)
    → length (left ao a) + length (left bo b) < fuel
    → join_loop fuel (joining ao a bo b out)
      ≡ answer (left ao a) (left bo b) (error_left ao a) (error_left bo b) out

module _ (fuel : ℕ) (answers : Answers fuel) where
  advance_a :
      (a : IndexReader) (bo : Bool) (b : IndexReader) (out : IndexDiff)
      → IsAt true a
      → IsAt bo b
      → Increasing (records a.lines)
      → Increasing (left bo b)
      → length (records a.lines) + length (left bo b) < fuel
      → join_loop fuel (joining (next a).ok (next a).reader bo b out)
        ≡ answer (records a.lines) (left bo b) (read_error a.lines a.scan_err) (error_left bo b) out
  advance_a a bo b out ia ib sa sb n =
      let sc = next-Scanned a ia in
      answers (next a).ok (next a).reader bo b out sc.is_at ib (subst Increasing (sym sc.given) sa)
        sb (subst (λ l. length l + length (left bo b) < fuel) (sym sc.given) n)
      ∙ answer_eq out sc.given refl sc.error refl

  advance_b :
      (ao : Bool) (a b : IndexReader) (out : IndexDiff)
      → IsAt ao a
      → IsAt true b
      → Increasing (left ao a)
      → Increasing (records b.lines)
      → length (left ao a) + length (records b.lines) < fuel
      → join_loop fuel (joining ao a (next b).ok (next b).reader out)
        ≡ answer (left ao a) (records b.lines) (error_left ao a) (read_error b.lines b.scan_err) out
  advance_b ao a b out ia ib sa sb n =
      let sc = next-Scanned b ib in
      answers ao a (next b).ok (next b).reader out ia sc.is_at sa
        (subst Increasing (sym sc.given) sb)
        (subst (λ l. length (left ao a) + length l < fuel) (sym sc.given) n)
      ∙ answer_eq out refl sc.given refl sc.error

  advance_both :
      (a b : IndexReader) (out : IndexDiff)
      → IsAt true a
      → IsAt true b
      → Increasing (records a.lines)
      → Increasing (records b.lines)
      → length (records a.lines) + length (records b.lines) < fuel
      → join_loop fuel (joining (next a).ok (next a).reader (next b).ok (next b).reader out)
        ≡ answer
            (records a.lines)
            (records b.lines)
            (read_error a.lines a.scan_err)
            (read_error b.lines b.scan_err)
            out
  advance_both a b out ia ib sa sb n =
      let sc = next-Scanned a ia in
      advance_b (next a).ok (next a).reader b out sc.is_at ib (subst Increasing (sym sc.given) sa)
        sb (subst (λ l. length l + length (records b.lines) < fuel) (sym sc.given) n)
      ∙ answer_eq out sc.given refl sc.error refl

  both_answer :
      (a b : IndexReader) (out : IndexDiff)
      → IsAt true a
      → IsAt true b
      → Increasing (left true a)
      → Increasing (left true b)
      → length (left true a) + length (left true b) < suc fuel
      → join_loop fuel (join_both (joining true a true b out))
        ≡ answer (left true a) (left true b) (error_left true a) (error_left true b) out
  unfolding join_both next_a next_b left error_left
  both_answer a b out ia ib sa sb n =
      elim (Bool-cases (text_lt (sort_key a.rec) (sort_key b.rec))) [
        | inl less ↦ rw less (
            advance_a a true b _ ia ib sa.1 sb (omega (arith, n))
            ∙ finish (
                append-removed out _ a.rec
                ∙ ap (append_diff out) (sym (difference_less a.rec b.rec _ _ less sb.0))))
        | inr not_less ↦ elim (Bool-cases (text_lt (sort_key b.rec) (sort_key a.rec))) [
          | inl greater ↦
              rw (not_less, greater)
                (advance_b true a b _ ia ib sa sb.1 (omega (arith, n))
                  ∙ finish (
                      append-added out _ b.rec
                      ∙ ap (append_diff out)
                          (sym (difference_greater a.rec b.rec _ _ greater sa.0))))
          | inr not_greater ↦
              let same = text_lt_total (sort_key a.rec) (sort_key b.rec) not_less not_greater in
              rw (not_less, not_greater)
                (advance_both a b _ ia ib sa.1 sb.1 (omega (arith, n))
                  ∙ finish (
                      append-modified out _ a.rec b.rec
                      ∙ ap (append_diff out)
                          (sym (difference_same a.rec b.rec _ _ same sa.0 sb.0))))
        ]
      ]
    where
      finish :
          {x y : IndexDiff}
          → x ≡ y
          → or_error (error_left true a) (error_left true b) (diffed x)
            ≡ or_error (error_left true a) (error_left true b) (diffed y)
      finish p = ap (λ d. or_error (error_left true a) (error_left true b) (diffed d)) p

no_errors :
    (ao bo : Bool) (a b : IndexReader) (d : Diffed)
    → IsAt ao a
    → IsAt bo b
    → or_error (ahead ao a.err) (ahead bo b.err) d ≡ d
no_errors false false a b d ia ib = refl
no_errors false true a b d ia ib = ap (λ e. or_error none e d) ib.0
no_errors true false a b d ia ib = ap (λ e. or_error e none d) ia.0
no_errors true true a b d ia ib = ap₂ (λ e f. or_error e f d) ia.0 ib.0

join_loop-answer : (fuel : ℕ) → Answers fuel
unfolding join_loop join_round left error_left difference missing changed append_diff next_a next_b
join_loop-answer zero ao a bo b out ia ib sa sb n = absurd (omega (arith, n))
join_loop-answer (suc fuel) false a false b out ia ib sa sb n =
    ap (λ d. or_error a.err b.err (diffed d))
      (diff_eq (sym (append-nil _)) (sym (append-nil _)) (sym (append-nil _)))
join_loop-answer (suc fuel) true a false b out ia ib sa sb n =
    no_errors true false a b _ ia ib
    ∙ advance_a fuel (join_loop-answer fuel) a false b _ ia ib sa.1 sb (omega (arith, n))
    ∙ ap (λ d. or_error (read_error a.lines a.scan_err) b.err (diffed d))
        (append-removed out _ a.rec)
join_loop-answer (suc fuel) false a true b out ia ib sa sb n =
    no_errors false true a b _ ia ib
    ∙ advance_b fuel (join_loop-answer fuel) false a b _ ia ib sa sb.1 (omega (arith, n))
    ∙ ap (λ d. or_error a.err (read_error b.lines b.scan_err) (diffed d)) (append-added out _ b.rec)
join_loop-answer (suc fuel) true a true b out ia ib sa sb n =
    no_errors true true a b _ ia ib ∙ both_answer fuel (join_loop-answer fuel) a b out ia ib sa sb n

length-records : (ls : List Line) → length (records ls) ≤ length ls
unfolding records
length-records [] = omega arith
length-records (malformed e ∷ ls) = omega arith
length-records (decoded r ∷ ls) = omega (arith, length-records ls)

-- For two indexes whose records come with increasing keys, DiffIndexes reads both to their ends. If one
-- fails, it fails with the error, the first index's before the second's. Otherwise the result has as
-- removed and as added the records whose key the other index does not have, and as modified the keys
-- that both have with different hashes.
pub diff_indexes-difference :
    (la lb : List Line) (ea eb : Option Text)
    → Increasing (records la)
    → Increasing (records lb)
    → diff_indexes (open_index la ea) (open_index lb eb)
      ≡ or_error
          (read_error la ea)
          (read_error lb eb)
          (diffed (difference (records la) (records lb)))
unfolding diff_indexes start_join open_index append_diff
diff_indexes-difference la lb ea eb sa sb =
    advance_both (suc (length la + length lb)) (join_loop-answer (suc (length la + length lb)))
      (open_index la ea) (open_index lb eb) (record { added = []; removed = []; modified = [] })
      (refl, refl) (refl, refl) sa sb (enough _ _ _ _ (length-records la) (length-records lb))
  where
    enough : (x y m n : ℕ) → x ≤ m → y ≤ n → x + y < suc (m + n)
    enough x y m n p q = omega (arith, p, q)
