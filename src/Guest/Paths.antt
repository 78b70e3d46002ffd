-- ===== src/Guest/Paths.antt =====
-- go/internal/agent/guestpaths/paths.go: which guest files the agent's file and exec calls may touch.
-- filepath.Clean of the guest's Windows is the argument `clean`.
pub mod Policy
mod Examples
use Prim.Native.String.{String}
use quarantine_lab.Prelude.{
  ℕ, Bool, true, false, ◌&&◌, ◌||◌, not, List, [], ◌∷◌, ◌++◌, ◌==◌, if◌then◌else◌,
}
use quarantine_lab.Prelude.Text.{
  Text, codes, text_eq, to_lower, trim_space, has_prefix, has_part, has_char, replace_char,
  trim_right_char,
}

abbrev pub backslash : ℕ
backslash = 92

abbrev pub slash : Text
slash = backslash ∷ []

abbrev pub install_dir : Text
install_dir = codes "C:\\Program Files\\QuarantineLab"

abbrev pub data_dir : Text
data_dir = codes "C:\\ProgramData\\QuarantineLab"

abbrev pub public_dir : Text
public_dir = codes "C:\\Users\\Public\\Quarantine"

abbrev pub token_path : Text
token_path = data_dir ++ codes "\\agent-token.txt"

abbrev pub hive_root : Text
hive_root = data_dir ++ codes "\\hives"

abbrev pub legacy_public_hive_root : Text
legacy_public_hive_root = public_dir ++ codes "\\hives"

abbrev pub default_sysmon_dir : Text
default_sysmon_dir = public_dir ++ codes "\\sysmon"

-- FileGet, FilePut, FileDelete, and any other text
pub data FileOp : Type 0 where
  get put delete other_op : FileOp

pub record FilePolicy : Type 0 where
  pub payload_user : Text
  pub lab_admin : Text
  pub sysmon_dir : Text

-- The errors of AllowedFile and AllowedExec; `not_allowed` is the message for any call, whose name in it is
-- left out.
pub data Access : Type 0 where
  allowed : Access
  invalid_path unc_path not_allowed protected_path not_absolute unknown_op : Access

-- under
unfoldable pub under : Text → Text → Bool
unfolding has_prefix
under n root = text_eq n root || has_prefix n (root ++ slash)

abbrev pub under_any : Text → List Text → Bool
under_any n [] = false
under_any n (r ∷ rs) = under n r || under_any n rs

abbrev pub listed_text : Text → List Text → Bool
listed_text t [] = false
listed_text t (u ∷ us) = text_eq t u || listed_text t us

-- err == nil, or else the later error
abbrev pub or_else : Access → Access → Access
or_else allowed e = allowed
or_else _ e = e

module _ (clean : Text → Text) where
  -- canon
  unfoldable pub canon : Text → Text
  unfolding trim_space replace_char to_lower trim_right_char
  canon p =
      trim_right_char backslash (to_lower (clean (replace_char b'/' backslash (trim_space p))))

  -- sysmonRoot
  unfoldable pub sysmon_root : FilePolicy → Text
  unfolding canon trim_space
  sysmon_root p =
      if text_eq (trim_space p.sysmon_dir) [] then canon default_sysmon_dir else canon p.sysmon_dir

  -- The loop of profileRoots over the users, with the map `seen` as the list of its keys.
  unfoldable pub profile_loop : List Text → List Text → List Text
  unfolding canon trim_space has_char
  profile_loop [] seen = []
  profile_loop (u ∷ us) seen =
      let user = trim_space u in
      let base = canon (codes "C:\\Users\\" ++ user) in
      let skip = profile_loop us seen in
      let next = profile_loop us (base ∷ seen) in
      if text_eq user [] || (has_char b'/' user || has_char backslash user)
      then skip
      else if listed_text base seen
      then skip
      else (base ++ codes "\\desktop") ∷ (base ++ codes "\\downloads") ∷ next

  -- profileRoots
  unfoldable pub profile_roots : FilePolicy → List Text
  unfolding profile_loop
  profile_roots p = profile_loop (p.payload_user ∷ p.lab_admin ∷ []) []

  -- IsHivePath
  unfoldable pub is_hive_path : Text → Bool
  unfolding canon under
  is_hive_path p = under (canon p) (canon hive_root)

  -- ShouldDeleteHiveDir
  unfoldable pub should_delete_hive_dir : Text → Bool
  unfolding is_hive_path
  should_delete_hive_dir p = is_hive_path p || under (canon p) (canon legacy_public_hive_root)

  -- IsProtectedRoot
  unfoldable pub is_protected_root : Text → Bool
  unfolding canon under
  is_protected_root p = under (canon p) (canon data_dir) || under (canon p) (canon install_dir)

  -- What AllowedFile does with `n`, the canonical form of `path`, once it is known to be local.
  unfoldable pub allowed_op : FilePolicy → Text → Text → FileOp → Access
  unfolding sysmon_root profile_roots should_delete_hive_dir is_protected_root
  allowed_op p path n get =
      if under n (canon public_dir)
        || under n (sysmon_root p)
        || is_hive_path path
        || text_eq n (canon token_path)
      then allowed
      else if under_any n (profile_roots p)
      then allowed
      else not_allowed
  allowed_op p path n put =
      if is_protected_root path
      then protected_path
      else if under n (canon public_dir) || under n (sysmon_root p)
      then allowed
      else if under_any n (profile_roots p)
      then allowed
      else not_allowed
  allowed_op p path n delete =
      if is_protected_root path
      then protected_path
      else if under n (canon public_dir) || under n (sysmon_root p)
      then allowed
      else if should_delete_hive_dir path
      then allowed
      else if under_any n (profile_roots p)
      then allowed
      else not_allowed
  allowed_op p path n other_op = unknown_op

  -- AllowedFile
  unfoldable pub allowed_file : FilePolicy → Text → FileOp → Access
  unfolding allowed_op has_part has_prefix
  allowed_file p path op =
      let n = canon path in
      if text_eq n [] || text_eq n (codes ".") || has_part n (codes "..")
      then invalid_path
      else if has_prefix n (slash ++ slash)
      then unc_path
      else allowed_op p path n op

  -- AllowedExec
  unfoldable pub allowed_exec : FilePolicy → Text → Access
  unfolding allowed_file has_char
  allowed_exec p exe =
      let n = canon exe in
      if text_eq n [] || not (has_char b':' n) || has_part n (codes "..")
      then not_absolute
      else if has_prefix n (slash ++ slash)
      then unc_path
      else if under n (canon (codes "C:\\Windows"))
      then allowed
      else or_else (allowed_file p exe get) not_allowed
