-- ===== src/Compare/Noise.antt =====
-- go/internal/diff/noise.go: which files, hosts, registry keys and events are routine noise. A map from
-- strings to any value is a list of its entries, where only a string is a value; url.Parse with its
-- Hostname is the argument `url_host`, which gives nothing on an error. A list that is nil is `none`.
use quarantine_lab.Prelude.{
  ℕ, Bool, true, false, ◌&&◌, ◌||◌, not, Option, none, some, List, [], ◌∷◌, ◌==◌, leb, ltb,
  if◌then◌else◌, length, get_or,
}
use quarantine_lab.Prelude.Int.{pos, negsuc, eq_ℤ}
use quarantine_lab.Prelude.Text.{
  Text, codes, text_eq, to_lower, trim_space, has_part, has_suffix, has_char, replace_char,
}
use quarantine_lab.Compare.{FileDetail, no_detail, FileModified}
use quarantine_lab.Compare.Pattern.{
  match_string, any_noise_re, high_signal_file_ext, eb_web_view_path, eb_web_view_noise, wer_noise,
  ephemeral_temp, compiler_temp, usn_leaf_dir, drive_root,
}
use quarantine_lab.Compare.Defaults.{
  default_noise_domains, default_noise_files, default_noise_registry,
}

unfoldable pub or_default : List Text → Option (List Text) → List Text
or_default d none = d
or_default d (some l) = l

-- largeWebViewFileBytes
abbrev pub large_web_view_file_bytes : ℕ
large_web_view_file_bytes = 2097152

-- normalizeNoisePath
unfoldable pub normalize_noise_path : Text → Text
unfolding replace_char
normalize_noise_path p = replace_char b'/' b'\\' p

-- fileSizeHint(f) < largeWebViewFileBytes
unfoldable pub is_small : FileDetail → Bool
is_small f = elim f.size [ pos n ↦ ltb n large_web_view_file_bytes | negsuc n ↦ true ]

-- The loops over a list of patterns, for a text in small letters
unfoldable pub has_any_part : Text → List Text → Bool
unfolding to_lower replace_char trim_space has_part
has_any_part n [] = false
has_any_part n (p ∷ ps) =
    let q = to_lower (replace_char b'/' b'\\' (trim_space p)) in
    (not (text_eq q []) && has_part n q) || has_any_part n ps

-- matchFileNoiseSubstring
unfoldable pub match_file_noise_substring : Text → Option (List Text) → Bool
unfolding has_any_part or_default to_lower default_noise_files
match_file_noise_substring norm patterns =
    has_any_part (to_lower norm) (or_default default_noise_files patterns)

-- IsFileNoisePatterns
unfoldable pub is_file_noise_patterns : FileDetail → Option (List Text) → Bool
unfolding trim_space normalize_noise_path any_noise_re match_string is_small
    match_file_noise_substring
is_file_noise_patterns f patterns =
    let norm = normalize_noise_path (trim_space f.path) in
    if not (text_eq (trim_space f.noise) [])
    then true
    else if text_eq (trim_space f.path) []
    then false
    else if any_noise_re norm ephemeral_temp || any_noise_re norm compiler_temp
    then true
    else if any_noise_re norm high_signal_file_ext
    then false
    else if any_noise_re norm wer_noise
    then true
    else if match_string eb_web_view_path norm && any_noise_re norm eb_web_view_noise
    then is_small f
    else match_file_noise_substring norm patterns

-- isModifiedNoise
unfoldable pub is_modified_noise : FileModified → Option (List Text) → Bool
unfolding is_file_noise_patterns
is_modified_noise m patterns =
    is_file_noise_patterns
      (record no_detail { path = m.path; size = m.after.size; noise = m.after.noise }) patterns
    || ((not (text_eq m.after.path []) && is_file_noise_patterns m.after patterns)
        || (not (text_eq m.before.path []) && is_file_noise_patterns m.before patterns))

-- The text before the first of two characters
unfoldable pub before_any : ℕ → ℕ → Text → Text
before_any a b [] = []
before_any a b (c ∷ s) = if c == a || c == b then [] else c ∷ before_any a b s

-- extractNetworkHost
unfoldable pub extract_network_host : (Text → Option Text) → Text → Text
unfolding to_lower trim_space has_part before_any
extract_network_host url_host text =
    let raw = to_lower (trim_space text) in
    let plain = before_any b':' b':' (before_any b'/' b'?' raw) in
    if text_eq raw []
    then []
    else if has_part raw (codes "://")
    then elim (url_host raw) [
      | none ↦ plain
      | some h ↦ if not (text_eq h []) then to_lower h else plain
    ]
    else plain

-- host == suffix || strings.HasSuffix(host, "."+suffix)
unfoldable pub under_domain : Text → Text → Bool
unfolding has_suffix
under_domain host suffix = text_eq host suffix || has_suffix host (b'.' ∷ suffix)

-- The loop over the suffixes
unfoldable pub any_domain : Text → List Text → Bool
unfolding under_domain to_lower trim_space
any_domain host [] = false
any_domain host (s ∷ ss) =
    let suffix = to_lower (trim_space s) in
    (not (text_eq suffix []) && under_domain host suffix) || any_domain host ss

-- The hosts that are noise under every list
unfoldable pub lab_host : Text → Bool
unfolding has_suffix
lab_host host =
    (text_eq host (codes "home.arpa") || has_suffix host (codes ".home.arpa"))
    || ((text_eq host (codes "localhost") || text_eq host (codes "localhost."))
        || has_suffix host (codes ".local"))

-- IsNetworkHostNoiseDomains
unfoldable pub is_network_host_noise_domains :
    (Text → Option Text) → Text → Option (List Text) → Bool
unfolding extract_network_host lab_host any_domain or_default default_noise_domains
is_network_host_noise_domains url_host text suffixes =
    let host = extract_network_host url_host text in
    if text_eq host []
    then false
    else if lab_host host
    then true
    else any_domain host (or_default default_noise_domains suffixes)

-- map[string]any
abbrev pub Event : Type 0
Event = List (Text × Option Text)

-- v, ok := m[k].(string); without one, the empty text
unfoldable pub string_at : Text → Event → Text
string_at k [] = []
string_at k (e ∷ m) = if text_eq k e.0 then elim e.1 [ none ↦ [] | some v ↦ v ] else string_at k m

-- mapString
unfoldable pub map_string : Event → List Text → Text
unfolding string_at trim_space
map_string m [] = []
map_string m (k ∷ ks) =
    let rest = map_string m ks in
    if not (text_eq (trim_space (string_at k m)) []) then string_at k m else rest

-- isNetworkDNSNoise
unfoldable pub is_network_dns_noise : (Text → Option Text) → Event → Option (List Text) → Bool
unfolding is_network_host_noise_domains map_string
is_network_dns_noise url_host m suffixes =
    is_network_host_noise_domains url_host
      (map_string m (codes "query" ∷ codes "qname" ∷ codes "host" ∷ [])) suffixes

-- isNetworkRequestNoise
unfoldable pub is_network_request_noise : (Text → Option Text) → Event → Option (List Text) → Bool
unfolding is_network_host_noise_domains map_string
is_network_request_noise url_host m suffixes =
    is_network_host_noise_domains url_host
      (map_string m (codes "host" ∷ codes "url" ∷ codes "path" ∷ [])) suffixes

-- The loop of isSysmonNoise over the keys
unfoldable pub sysmon_noise_at :
    (Text → Option Text) → Event → Option (List Text) → Option (List Text) → List Text → Bool
unfolding map_string is_network_host_noise_domains match_file_noise_substring normalize_noise_path
sysmon_noise_at url_host m suffixes files [] = false
sysmon_noise_at url_host m suffixes files (k ∷ ks) =
    let v = map_string m (k ∷ []) in
    let rest = sysmon_noise_at url_host m suffixes files ks in
    if text_eq v []
    then rest
    else if is_network_host_noise_domains url_host v suffixes
        || match_file_noise_substring (normalize_noise_path v) files
    then true
    else rest

-- isSysmonNoise
unfoldable pub is_sysmon_noise :
    (Text → Option Text) → Event → Option (List Text) → Option (List Text) → Bool
unfolding sysmon_noise_at
is_sysmon_noise url_host m suffixes files = sysmon_noise_at url_host m suffixes files (
    codes "summary"
    ∷ codes "target"
    ∷ codes "targetObject"
    ∷ codes "image"
    ∷ codes "queryName"
    ∷ codes "type"
    ∷ codes "commandLine"
    ∷ [])

-- isUSNNoise
unfoldable pub is_usn_noise : Event → Option (List Text) → Bool
unfolding is_file_noise_patterns map_string
is_usn_noise m files =
    is_file_noise_patterns
      (record no_detail { path = map_string m (codes "fileName" ∷ codes "path" ∷ codes "p" ∷ []) })
      files

-- isUSNLeafFile
unfoldable pub is_usn_leaf_file : FileDetail → Bool
unfolding normalize_noise_path match_string has_char
is_usn_leaf_file f =
    let p = normalize_noise_path f.path in
    if text_eq p []
    then false
    else if match_string usn_leaf_dir p
    then true
    else if not (has_char b'\\' p) && not (leb 2 (length p) && get_or p 1 0 == b':')
    then true
    else if not (match_string drive_root p)
    then false
    else text_eq f.hash [] && eq_ℤ f.size (pos 0)

-- isUSNLeafModified
unfoldable pub is_usn_leaf_modified : FileModified → Bool
unfolding is_usn_leaf_file
is_usn_leaf_modified m =
    is_usn_leaf_file (record no_detail {
      path = if text_eq m.path [] then m.after.path else m.path;
      hash = m.after.hash;
      size = m.after.size;
    })
    || (is_usn_leaf_file m.before || is_usn_leaf_file m.after)

-- IsRegistryNoise
unfoldable pub is_registry_noise : Text → Option (List Text) → Bool
unfolding has_any_part or_default to_lower replace_char trim_space default_noise_registry
is_registry_noise key patterns =
    let n = to_lower (replace_char b'/' b'\\' (trim_space key)) in
    if text_eq n [] then false else has_any_part n (or_default default_noise_registry patterns)
