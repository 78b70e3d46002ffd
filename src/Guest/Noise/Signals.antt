-- ===== src/Guest/Noise/Signals.antt =====
-- Which files ClassifyFileNoise keeps in the analyst's list.
use quarantine_lab.Prelude.{
  ◌≡◌, refl, ◌∙◌, Bool, true, false, ◌&&◌, ◌||◌, [], ◌∷◌, if◌then◌else◌, arith, Bool-cases, inl,
  inr,
}
use quarantine_lab.Prelude.Text.{Text, text_eq, to_lower, trim_space}
use quarantine_lab.Guest.Noise.{
  NoiseClass, relevant, capture, ntfs, temp, onedrive_client, is, within, has_key, ext, without_ext,
  looks_like_csc_token, csc_token_from_name, is_ntfs_metadata_path, is_power_shell_policy_probe,
  is_one_drive_client_path, is_capture_self, is_system_temp_compiler_artifact, is_always_signal,
  classify,
}
use quarantine_lab.Guest.Noise.Tables.{signal_ext}

-- The places and names that hide a file before its extension is looked at.
pub record NotSetAside (p n : Text) : Type 0 where
  pub lab : is_capture_self p n ≡ false
  pub metadata : is_ntfs_metadata_path p n ≡ false
  pub probe : is_power_shell_policy_probe n ≡ false
  pub client : is_one_drive_client_path p ≡ false

keep_choice :
    (named ext_in lnk recent driver catalog rest : Bool)
    → ext_in ≡ true
    → (lnk && recent) ≡ false
    → driver ≡ false
    → catalog ≡ false
    → (if named
        then true
        else if ext_in
        then (if lnk && recent then false else if driver || catalog then false else true)
        else rest)
      ≡ true
keep_choice named ext_in lnk recent driver catalog rest a b c d = ground arith

-- A high-value extension keeps a file, but for shortcuts among the recent files and for what lies in
-- the driver store and the catalogs.
always_signal_ext :
    (p n : Text)
    → has_key (ext n) signal_ext ≡ true
    → (is (ext n) ".lnk" && within p "\\recent\\") ≡ false
    → within p "\\driverstore\\" ≡ false
    → within p "\\catroot" ≡ false
    → is_always_signal p n ≡ true
unfolding is_always_signal
always_signal_ext p n a b c d =
    keep_choice
      (is n "hosts" || is n "lmhosts" || is n "networks" || is n "protocol" || is n "services")
      (has_key (ext n) signal_ext) (is (ext n) ".lnk") (within p "\\recent\\")
      (within p "\\driverstore\\") (within p "\\catroot") _ a b c d

classify_choice :
    (lab metadata probe client artifact signal : Bool) (rest : NoiseClass)
    → lab ≡ false
    → metadata ≡ false
    → probe ≡ false
    → client ≡ false
    → (if lab
        then capture
        else if metadata
        then ntfs
        else if probe
        then temp
        else if client
        then onedrive_client
        else if artifact
        then temp
        else if signal
        then relevant
        else rest)
      ≡ (if artifact then temp else if signal then relevant else rest)
classify_choice lab metadata probe client artifact signal rest a b c d = rw (a, b, c, d)

-- A file with a high-value extension is shown, whatever else its name and folder are: in a temporary
-- folder and in a browser's cache too. Set aside are the lab's own files, file system metadata, policy
-- probes, the OneDrive client, the output of the .NET compiler, recent shortcuts, the driver store
-- and the catalogs.
pub classify-signal_ext :
    (p n : Text)
    → NotSetAside p n
    → is_system_temp_compiler_artifact p n ≡ false
    → has_key (ext n) signal_ext ≡ true
    → (is (ext n) ".lnk" && within p "\\recent\\") ≡ false
    → within p "\\driverstore\\" ≡ false
    → within p "\\catroot" ≡ false
    → classify p n ≡ relevant
unfolding classify
classify-signal_ext p n s artifact a b c d =
    classify_choice (is_capture_self p n) (is_ntfs_metadata_path p n)
      (is_power_shell_policy_probe n) (is_one_drive_client_path p)
      (is_system_temp_compiler_artifact p n) (is_always_signal p n) _ s.lab s.metadata s.probe
      s.client
    ∙ rw (artifact, always_signal_ext p n a b c d)

-- The name looks like one of the .NET compiler's temporary files: eight letters or digits, with any
-- extension or none.
abbrev pub IsTokenName : Text → Type 0
IsTokenName n = looks_like_csc_token (without_ext (to_lower (trim_space n))) ≡ true

token_length : (s : Text) → looks_like_csc_token s ≡ true → text_eq s [] ≡ false
unfolding looks_like_csc_token
token_length [] h = cc
token_length (c ∷ s) h = refl

csc_token-IsTokenName : (n : Text) → IsTokenName n → text_eq (csc_token_from_name n) [] ≡ false
unfolding csc_token_from_name
csc_token-IsTokenName n h = elim (Bool-cases (looks_like_csc_token (to_lower (trim_space n)))) [
  | inl whole ↦ rw whole (token_length (to_lower (trim_space n)) whole)
  | inr part ↦ rw (part, h) (token_length (without_ext (to_lower (trim_space n))) h)
]

artifact_choice :
    (source unresolved any layout no_token : Bool)
    → unresolved ≡ true
    → no_token ≡ false
    → (if source
        then unresolved || any
        else if no_token
        then false
        else if unresolved
        then true
        else layout)
      ≡ true
artifact_choice source unresolved any layout no_token a b = ground arith

or_true : (a b : Bool) → b ≡ true → (a || b) ≡ true
or_true a b h = ground arith
