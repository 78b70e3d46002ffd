-- ===== src/Registry/Diff.antt =====
-- hive_diff.go: DiffIndexes joins two sorted indexes.
pub mod Join
pub mod Answer
mod Examples
use quarantine_lab.Prelude.{
  ℕ, zero, suc, ◌+◌, Bool, true, false, ◌||◌, ◌&&◌, Option, none, some, List, [], ◌∷◌, ◌++◌, not,
  if◌then◌else◌, length,
}
use quarantine_lab.Prelude.Int.{ℤ}
use quarantine_lab.Prelude.Text.{Text, text_lt, text_eq}
use quarantine_lab.Registry.Index.{
  IndexRecord, sort_key, Line, IndexReader, next, open_index, is_some,
}

pub record ValueChange : Type 0 where
  pub k : Text
  pub n : Text
  pub t : Text
  pub v0 : Option Text
  pub v1 : Option Text
  pub h0 : Text
  pub h1 : Text
  pub s0 : ℤ
  pub s1 : ℤ

pub record IndexDiff : Type 0 where
  pub added : List IndexRecord
  pub removed : List IndexRecord
  pub modified : List ValueChange

-- The entry for two records with one key.
unfoldable pub value_change : IndexRecord → IndexRecord → ValueChange
value_change ra rb = record {
  k = rb.k;
  n = rb.n;
  t = rb.t;
  v0 = ra.v;
  v1 = rb.v;
  h0 = ra.h;
  h1 = rb.h;
  s0 = ra.size;
  s1 = rb.size;
}

-- The variables of DiffIndexes
pub record Joining : Type 0 where
  pub a_ok : Bool
  pub a : IndexReader
  pub b_ok : Bool
  pub b : IndexReader
  pub out : IndexDiff

pub data Diffed : Type 0 where
  diffed : IndexDiff → Diffed
  failed : Text → Diffed
  out_of_fuel : Diffed

unfoldable pub next_a : Joining → IndexDiff → Joining
unfolding next
next_a s out = record s { a_ok = (next s.a).ok; a = (next s.a).reader; out = out }

unfoldable pub next_b : Joining → IndexDiff → Joining
unfolding next
next_b s out = record s { b_ok = (next s.b).ok; b = (next s.b).reader; out = out }

abbrev pub with_removed : IndexDiff → IndexRecord → IndexDiff
with_removed out r = record out { removed = out.removed ++ r ∷ [] }

abbrev pub with_added : IndexDiff → IndexRecord → IndexDiff
with_added out r = record out { added = out.added ++ r ∷ [] }

abbrev pub with_modified : IndexDiff → IndexRecord → IndexRecord → IndexDiff
with_modified out ra rb =
    if not (text_eq ra.h rb.h)
    then record out { modified = out.modified ++ value_change ra rb ∷ [] }
    else out

-- The switch for two records
unfoldable pub join_both : Joining → Joining
unfolding next_a next_b sort_key value_change
join_both s =
    let ka = sort_key s.a.rec in
    let kb = sort_key s.b.rec in
    if text_lt ka kb
    then next_a s (with_removed s.out s.a.rec)
    else if text_lt kb ka
    then next_b s (with_added s.out s.b.rec)
    else let out = with_modified s.out s.a.rec s.b.rec in
      record {
        a_ok = (next s.a).ok;
        a = (next s.a).reader;
        b_ok = (next s.b).ok;
        b = (next s.b).reader;
        out = out;
      }

-- One round of the loop
unfoldable pub join_round : Joining → Joining
unfolding join_both
join_round s =
    if s.a_ok && s.b_ok
    then join_both s
    else if s.a_ok
    then next_a s (with_removed s.out s.a.rec)
    else next_b s (with_added s.out s.b.rec)

-- What the errors of the two readers make of a result.
abbrev pub or_error : Option Text → Option Text → Diffed → Diffed
or_error (some e) f r = failed e
or_error none (some f) r = failed f
or_error none none r = r

-- The tests before a round
abbrev pub ahead : Bool → Option Text → Option Text
ahead true e = e
ahead false e = none

-- The loop and what follows it
unfoldable pub join_loop : ℕ → Joining → Diffed
unfolding join_round
join_loop zero s = out_of_fuel
join_loop (suc fuel) s =
    if s.a_ok || s.b_ok
    then or_error (ahead s.a_ok s.a.err) (ahead s.b_ok s.b.err) (join_loop fuel (join_round s))
    else or_error s.a.err s.b.err (diffed s.out)

unfoldable pub start_join : IndexReader → IndexReader → Joining
unfolding next
start_join a b = record {
  a_ok = (next a).ok;
  a = (next a).reader;
  b_ok = (next b).ok;
  b = (next b).reader;
  out = record { added = []; removed = []; modified = [] };
}

-- DiffIndexes of two indexes that open. Each round takes a line.
unfoldable pub diff_indexes : IndexReader → IndexReader → Diffed
unfolding join_loop start_join
diff_indexes a b = join_loop (suc (length a.lines + length b.lines)) (start_join a b)
