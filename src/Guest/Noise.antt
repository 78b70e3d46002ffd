-- ===== src/Guest/Noise.antt =====
-- go/internal/agent/collectors/file_noise.go: which changed files are hidden as routine noise.
-- filepath.Clean and filepath.Base of the guest's Windows are the arguments `clean` and `base`.
pub mod Tables
pub mod Signals
mod Examples
use Prim.Native.String.{String}
use quarantine_lab.Prelude.{
  ℕ, ◌-◌, map, Bool, true, false, ◌&&◌, ◌||◌, not, Option, none, some, List, [], ◌∷◌, ◌++◌, ◌==◌,
  ltb, leb, if◌then◌else◌, length, drop, take,
}
use quarantine_lab.Prelude.Text.{
  Text, codes, text_eq, to_lower, trim_space, has_prefix, has_suffix, has_part, replace_char,
}
use Tables.{
  signal_ext, noise_names, noise_name_contains, noise_path_parts, browser_cache_parts,
  capture_self_parts, noise_prefixes,
}

abbrev pub is : Text → String → Bool
is t s = text_eq t (codes s)

abbrev pub within : Text → String → Bool
within t s = has_part t (codes s)

abbrev pub starts : Text → String → Bool
starts t s = has_prefix t (codes s)

abbrev pub ends : Text → String → Bool
ends t s = has_suffix t (codes s)

-- A lookup in a map[string]bool whose values are all true.
unfoldable pub has_key : Text → List Text → Bool
has_key t [] = false
has_key t (k ∷ ks) = text_eq t k || has_key t ks

unfoldable pub any_part : Text → List Text → Bool
any_part t [] = false
any_part t (k ∷ ks) = has_part t k || any_part t ks

unfoldable pub any_prefix : Text → List Text → Bool
any_prefix t [] = false
any_prefix t (k ∷ ks) = has_prefix t k || any_prefix t ks

-- filepath.Ext: from the last dot on, if no separator follows it.
unfoldable pub ext_from : Text → Text → Text
ext_from [] found = found
ext_from (c ∷ s) found =
    ext_from s (if c == 92 || c == b'/' then [] else if c == b'.' then c ∷ s else found)

unfoldable pub ext : Text → Text
unfolding ext_from
ext s = ext_from s []

-- What follows the first occurrence of `part`: s[strings.Index(s, part)+len(part):]
unfoldable pub after_part : Text → Text → Option Text
unfolding has_prefix
after_part [] part = if has_prefix [] part then some [] else none
after_part (c ∷ s) part =
    if has_prefix (c ∷ s) part then some (drop (length part) (c ∷ s)) else after_part s part

-- isNTFSMetadataPath
unfoldable pub is_ntfs_metadata_path : Text → Text → Bool
is_ntfs_metadata_path p n =
    if within p "\\$extend\\" || starts p "c:\\$extend"
    then true
    else starts n "$"
      && (is (to_lower n) "$mft"
          || is (to_lower n) "$logfile"
          || is (to_lower n) "$usnjrnl"
          || starts n "$deleted"
          || is n "$extend")

-- isPowerShellPolicyProbe
unfoldable pub is_power_shell_policy_probe : Text → Bool
is_power_shell_policy_probe n = within n "psscriptpolicytest"

-- isOneDriveClientPath
unfoldable pub is_one_drive_client_path : Text → Bool
is_one_drive_client_path p =
    within p "\\appdata\\local\\microsoft\\onedrive\\"
    || within p "\\program files\\microsoft onedrive\\"
    || within p "\\program files (x86)\\microsoft onedrive\\"

-- The second character of a text is a colon.
abbrev pub has_drive : Text → Bool
has_drive (c ∷ d ∷ s) = d == b':'
has_drive _ = false

-- isUnresolvedFileName of usn_path.go
unfoldable pub is_unresolved_file_name : Text → Bool
is_unresolved_file_name path =
    let p = replace_char b'/' 92 (trim_space path) in
    if text_eq (trim_space path) []
    then true
    else if within p "\\"
    then false
    else ltb (length p) 2 || not (has_drive p)

abbrev pub all_token : Text → Bool
all_token [] = true
all_token (c ∷ s) = (leb b'a' c && leb c b'z' || leb b'0' c && leb c b'9') && all_token s

-- looksLikeCscToken
unfoldable pub looks_like_csc_token : Text → Bool
looks_like_csc_token s = length s == 8 && all_token s

-- strings.TrimSuffix(n, filepath.Ext(n))
abbrev pub without_ext : Text → Text
without_ext n = take (length n - length (ext n)) n

-- cscTokenFromName
unfoldable pub csc_token_from_name : Text → Text
csc_token_from_name name =
    let n = to_lower (trim_space name) in
    if looks_like_csc_token n
    then n
    else if looks_like_csc_token (without_ext n)
    then without_ext n
    else []

abbrev pub tail_of : Text → Text
tail_of [] = []
tail_of (c ∷ s) = s

abbrev pub csc_rest : Text → Option Text → Bool
csc_rest token none = false
csc_rest token (some rest) =
    if text_eq rest [] || is rest "\\"
    then true
    else if not (starts rest "\\")
    then false
    else text_eq (tail_of rest) token || has_prefix (tail_of rest) (token ++ codes ".")

-- isCscSystemTempLayout
unfoldable pub is_csc_system_temp_layout : Text → Text → Bool
is_csc_system_temp_layout p token = csc_rest token (after_part p (codes "\\systemtemp\\" ++ token))

-- isSystemTempCompilerArtifact
unfoldable pub is_system_temp_compiler_artifact : Text → Text → Bool
is_system_temp_compiler_artifact p n =
    let in_sys_temp = within p "\\windows\\systemtemp\\" in
    let unresolved = text_eq p [] || is_unresolved_file_name p in
    let token = csc_token_from_name n in
    if ends n ".0.cs" || ends n ".cmdline"
    then unresolved || (in_sys_temp || within p "\\temp\\")
    else if text_eq token []
    then false
    else if unresolved
    then true
    else is_csc_system_temp_layout p token

-- isCaptureSelf
unfoldable pub is_capture_self : Text → Text → Bool
is_capture_self p n =
    if starts n "hklm-" && (ends n ".reg" || ends n ".json")
    then true
    else within p "\\users\\public\\quarantine\\"
      || within p "\\programdata\\quarantinelab\\"
      || within p "\\program files\\quarantinelab\\"

abbrev pub system32_rest : Option Text → Bool
system32_rest none = false
system32_rest (some rest) =
    if text_eq rest []
    then false
    else if any_prefix rest noise_prefixes
    then false
    else if not (within rest "\\")
    then true
    else starts rest "drivers\\" || starts rest "tasks\\" || starts rest "grouppolicy\\"

-- isSystem32SignalPath
unfoldable pub is_system32_signal_path : Text → Bool
is_system32_signal_path p = system32_rest (after_part p (codes "\\windows\\system32\\"))

-- isAlwaysSignal
unfoldable pub is_always_signal : Text → Text → Bool
is_always_signal p n =
    if is n "hosts" || is n "lmhosts" || is n "networks" || is n "protocol" || is n "services"
    then true
    else if has_key (ext n) signal_ext
    then (if is (ext n) ".lnk" && within p "\\recent\\"
        then false
        else if within p "\\driverstore\\" || within p "\\catroot"
        then false
        else true)
    else if within p "\\windows\\system32\\drivers\\etc\\"
    then true
    else if within p "\\windows\\system32\\drivers\\" && not (within p "\\etc\\")
    then true
    else if is_system32_signal_path p
    then true
    else if within p "\\windows\\syswow64\\"
        && not (within p "\\appdata\\")
        && (not (within p "\\config\\systemprofile\\") && not (within p "\\spp\\store\\"))
    then true
    else within p "\\start menu\\programs\\startup\\"
      || within p "\\windows\\system32\\tasks\\"
      || within p "\\windows\\tasks\\"

pub data NoiseClass : Type 0 where
  -- "", a path that the analyst is shown
  relevant : NoiseClass
  capture ntfs temp onedrive_client os_telemetry browser_cache wer : NoiseClass

-- The rules on names and places, after those that keep a file.
unfoldable pub classify_rest : Text → Text → NoiseClass
classify_rest p n =
    if has_key n noise_names
    then os_telemetry
    else if any_part n noise_name_contains
    then os_telemetry
    else if ends n ".tmp"
        || ends n ".etl"
        || ends n ".log"
        || ends n ".wer"
        || ends n ".dmp"
        || ends n ".pf"
    then os_telemetry
    else if any_part p capture_self_parts
    then capture
    else if any_part p (map to_lower browser_cache_parts)
    then browser_cache
    else if any_part p noise_path_parts
    then (if within p "\\windows\\temp\\"
          || within p "\\windows\\systemtemp\\"
          || within p "\\appdata\\local\\temp\\"
        then temp
        else if within p "\\wer\\" || within p "reportqueue"
        then wer
        else os_telemetry)
    else relevant

-- ClassifyFileNoise for a path and a name in lower case
unfoldable pub classify : Text → Text → NoiseClass
classify p n =
    if is_capture_self p n
    then capture
    else if is_ntfs_metadata_path p n
    then ntfs
    else if is_power_shell_policy_probe n
    then temp
    else if is_one_drive_client_path p
    then onedrive_client
    else if is_system_temp_compiler_artifact p n
    then temp
    else if is_always_signal p n
    then relevant
    else classify_rest p n

module _ (clean base : Text → Text) where
  abbrev pub lower_path : Text → Text
  lower_path path = to_lower (replace_char b'/' 92 (clean path))

  -- ClassifyFileNoise
  unfoldable pub classify_file_noise : Text → Text → NoiseClass
  classify_file_noise path file_name =
      let p = lower_path path in
      let n = to_lower (trim_space file_name) in
      classify p (if text_eq n [] then to_lower (base p) else n)

  -- FilePriority
  unfoldable pub file_priority : Text → ℕ
  file_priority path =
      let p = lower_path path in
      let n = to_lower (base p) in
      if is n "hosts" || within p "\\drivers\\etc\\"
      then 0
      else if is_system32_signal_path p || within p "\\windows\\syswow64\\"
      then 0
      else if within p "\\program files\\" || within p "\\program files (x86)\\"
      then 1
      else if within p "\\startup\\" || within p "\\windows\\system32\\tasks\\"
      then 1
      else if has_key (ext n) signal_ext
      then 2
      else if within p "\\users\\"
          && (within p "\\desktop\\"
              || within p "\\documents\\"
              || within p "\\downloads\\"
              || within p "\\pictures\\")
      then 2
      else 4

abbrev pub single_close : List Text → Bool
single_close (r ∷ []) =
    let t = to_lower (replace_char b' ' b'_' r) in is t "close" || is t "0x80000000"
single_close _ = false

-- isCloseOnlyReason
unfoldable pub is_close_only_reason : List Text → Text → Bool
is_close_only_reason reasons reason_code =
    let code = to_lower (trim_space reason_code) in
    if is code "0x80000000" || is code "0x00000000" then true else single_close reasons
