-- ===== src/Guest/Paths/Examples.antt =====
-- Calls of go/internal/agent/guestpaths/paths_test.go, on paths that are clean already.
use quarantine_lab.Prelude.{◌≡◌, refl, true, []}
use quarantine_lab.Prelude.Text.{Text, codes}
use quarantine_lab.Guest.Paths.{
  FilePolicy, put, delete, allowed, under, canon, allowed_file, allowed_exec, data_dir, token_path,
}
use quarantine_lab.Guest.Paths.Policy.{KeepsRoots, allowed_file-delete}

abbrev same_path : Text → Text
same_path p = p

same_path-KeepsRoots : KeepsRoots same_path
same_path-KeepsRoots = record {
  data_root = refl;
  hive_dir = refl;
  public_root = refl;
  legacy_dir = refl;
}

abbrev lab : FilePolicy
lab = record { payload_user = codes "analyst"; lab_admin = codes "quarantine"; sysmon_dir = [] }

abbrev hive_file : Text
hive_file = codes "C:\\ProgramData\\QuarantineLab\\hives\\case\\SAM"

write_inbox :
    allowed_file same_path lab (codes "C:/Users/Public/Quarantine/inbox/sample.bin") put ≡ allowed
unfolding allowed_file
write_inbox = refl

write_desktop :
    allowed_file same_path lab (codes "C:\\Users\\analyst\\Desktop\\x.exe") put ≡ allowed
unfolding allowed_file
write_desktop = refl

run_sample :
    allowed_exec same_path lab (codes "C:\\Users\\Public\\Quarantine\\inbox\\sample.exe") ≡ allowed
unfolding allowed_exec
run_sample = refl

token_in_data : under (canon same_path token_path) (canon same_path data_dir) ≡ true
unfolding under canon
token_in_data = refl

allowed_file-delete_example :
    allowed_file same_path lab hive_file delete ≡ allowed_file same_path lab hive_file put
allowed_file-delete_example = allowed_file-delete same_path lab hive_file same_path-KeepsRoots
