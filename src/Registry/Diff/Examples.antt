-- ===== src/Registry/Diff/Examples.antt =====
-- The two indexes of TestDiffIndexesMergeJoin in go/internal/registry/hive_diff_test.go.
use quarantine_lab.Prelude.{◌≡◌, refl, none, List, [], ◌∷◌}
use quarantine_lab.Prelude.Int.{pos}
use quarantine_lab.Prelude.Text.{Text, codes, to_lower}
use quarantine_lab.Registry.Index.{IndexRecord, Line, decoded, open_index, next, scan, sort_key}
use quarantine_lab.Registry.Diff.{
  or_error, diffed, diff_indexes, join_loop, join_round, join_both, next_a, next_b, start_join,
  value_change,
}
use quarantine_lab.Registry.Diff.Join.{Increasing, difference}
use quarantine_lab.Registry.Diff.Answer.{records, read_error, diff_indexes-difference}

abbrev value : Text → Text → Text → IndexRecord
value k n h = record { k = k; n = n; t = codes "REG_SZ"; v = none; h = h; size = pos 1 }

abbrev before : List Line
before =
    decoded (value (codes "HKLM:\\A") (codes "1") (codes "h1"))
    ∷ decoded (value (codes "HKLM:\\B") (codes "1") (codes "h2"))
    ∷ decoded (value (codes "HKLM:\\C") (codes "1") (codes "same"))
    ∷ []

abbrev after : List Line
after =
    decoded (value (codes "hklm:\\B") (codes "1") (codes "h2b"))
    ∷ decoded (value (codes "hklm:\\C") (codes "1") (codes "same"))
    ∷ decoded (value (codes "hklm:\\D") (codes "1") (codes "h4"))
    ∷ []

before-Increasing : Increasing (records before)
unfolding records sort_key to_lower
before-Increasing = ((refl, (refl, tt)), ((refl, tt), (tt, tt)))

after-Increasing : Increasing (records after)
unfolding records sort_key to_lower
after-Increasing = ((refl, (refl, tt)), ((refl, tt), (tt, tt)))

diff_indexes-difference_example :
    diff_indexes (open_index before none) (open_index after none)
    ≡ or_error
        (read_error before none)
        (read_error after none)
        (diffed (difference (records before) (records after)))
diff_indexes-difference_example =
    diff_indexes-difference before after none none before-Increasing after-Increasing

-- A key that ends in a part of a value's name: both values have one sort key, so that the join finds
-- neither a removed nor an added value.
abbrev piped_before : List Line
piped_before = decoded (value (codes "HKLM:\\A") (codes "b|c") (codes "h")) ∷ []

abbrev piped_after : List Line
piped_after = decoded (value (codes "HKLM:\\A|b") (codes "c") (codes "h")) ∷ []

piped :
    diff_indexes (open_index piped_before none) (open_index piped_after none)
    ≡ diffed (record { added = []; removed = []; modified = [] })
unfolding diff_indexes join_loop join_round join_both next_a next_b start_join value_change next
    scan open_index sort_key to_lower
piped = refl
