-- ===== src/Guest/Noise/Examples.antt =====
-- Classes of some paths, as in go/internal/agent/collectors/file_noise_test.go.
use quarantine_lab.Prelude.{◌≡◌, refl}
use quarantine_lab.Prelude.Text.{
  codes, has_prefix, has_part, has_suffix, to_lower, trim_space, replace_char,
}
use quarantine_lab.Guest.Noise.{
  browser_cache, is_capture_self, is_ntfs_metadata_path, is_power_shell_policy_probe,
  is_one_drive_client_path, is_system_temp_compiler_artifact, is_unresolved_file_name,
  looks_like_csc_token, ext, has_key, any_part, any_prefix, after_part, csc_token_from_name,
  is_csc_system_temp_layout, is_system32_signal_path, is_always_signal, classify_rest, classify,
}

-- What the runs below compute with.
opened : Unit {0}
unfolding has_prefix has_part has_suffix to_lower trim_space replace_char has_key any_part
    any_prefix ext after_part is_ntfs_metadata_path is_power_shell_policy_probe
    is_one_drive_client_path is_unresolved_file_name looks_like_csc_token csc_token_from_name
    is_csc_system_temp_layout is_system_temp_compiler_artifact is_capture_self
    is_system32_signal_path is_always_signal classify_rest classify
opened = tt

cache_file : classify (codes "c:\\users\\a\\x\\code cache\\blob") (codes "blob") ≡ browser_cache
unfolding opened
cache_file = refl
