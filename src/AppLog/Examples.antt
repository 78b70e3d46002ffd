-- ===== src/AppLog/Examples.antt =====
-- A buffer for two lines.
use quarantine_lab.Prelude.{◌≡◌, List, [], ◌∷◌}
use quarantine_lab.Prelude.Int.{pos}
use quarantine_lab.Prelude.Text.{codes}
use quarantine_lab.AppLog.{new}
use quarantine_lab.AppLog.Ring.{Call, adds, clears, run, last, capacity, added_since, new-last}

abbrev calls : List Call
calls =
    adds [] (codes "cmd") (codes "one")
    ∷ clears
    ∷ adds [] (codes "warning") (codes "two")
    ∷ adds [] (codes " ERROR ") (codes "three")
    ∷ adds [] (codes "info") (codes "four")
    ∷ []

new-last_example : (run (new (pos 2)) calls).lines ≡ last (capacity (pos 2)) (added_since [] calls)
new-last_example = new-last (pos 2) calls
