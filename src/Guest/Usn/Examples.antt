-- ===== src/Guest/Usn/Examples.antt =====
-- A file that is written over and one that is deleted, as in go/internal/agent/collectors/usn_compact_test.go.
use quarantine_lab.Prelude.{◌≡◌, none, some, List, [], ◌∷◌, Option}
use quarantine_lab.Prelude.Text.{Text, codes}
use quarantine_lab.Guest.Usn.{Event, Host, unset, values, usn_loop, finalize_usn_events}
use quarantine_lab.Guest.Usn.Merge.{change_of, net_change, usn_loop-net_change}
use quarantine_lab.Guest.Usn.Order.{IsCut, finalize_usn_events-IsCut}

abbrev guest : Host
guest = record { clean = λ p. p; base = λ p. p; event_path = λ v n f p. []; parse_time = λ t. none }

abbrev event : Text → Text → Text → Event
event usn path reason = record {
  usn = usn;
  file_name = codes "a.exe";
  file_ref = [];
  parent_ref = [];
  path = path;
  timestamp = [];
  reasons = reason ∷ [];
  reason_code = [];
  change = unset;
}

abbrev journal : List (Option Event)
journal =
    some (event (codes "90") (codes "C:\\Users\\a.exe") (codes "FILE_CREATE"))
    ∷ some (event (codes "101") (codes "C:\\Users\\a.exe") (codes "FILE_CREATE"))
    ∷ none
    ∷ some (event (codes "0x70") (codes "c:\\users\\A.exe") (codes "FILE_DELETE"))
    ∷ some (event (codes "120") [] (codes "DATA_EXTEND"))
    ∷ []

usn_loop-net_change_example :
    change_of
      (codes "c:\\users\\a.exe")
      (usn_loop guest
        (codes "C:")
        100
        none
        (record { merged = []; noise = []; skipped_before_start = 0 })
        journal).merged
    ≡ net_change guest (codes "C:") 100 none (codes "c:\\users\\a.exe") journal none
usn_loop-net_change_example =
    usn_loop-net_change guest (codes "C:") 100 none (codes "c:\\users\\a.exe") [] 0 journal

finalize_usn_events-IsCut_example :
    (dropped : List Event) × IsCut guest
      (values
        (usn_loop guest
          (codes "C:")
          100
          none
          (record { merged = []; noise = []; skipped_before_start = 0 })
          journal).merged)
      (finalize_usn_events guest (codes "C:") journal 100 none)
      dropped
finalize_usn_events-IsCut_example = finalize_usn_events-IsCut guest (codes "C:") journal 100 none
