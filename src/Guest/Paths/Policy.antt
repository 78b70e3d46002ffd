-- ===== src/Guest/Paths/Policy.antt =====
-- What AllowedFile and AllowedExec let through.
use quarantine_lab.Prelude.{
  ◌≡◌, ◌⊎◌, subst₂, false≢true, refl, sym, Bool, true, false, ◌||◌, [], ◌∷◌, ◌++◌, if◌then◌else◌,
  arith, Bool-cases, inl, inr,
}
use quarantine_lab.Prelude.Text.{Text, text_eq, has_prefix, to_lower, trim_right_char, text_eq→eq}
use quarantine_lab.Guest.Paths.{
  get, put, delete, FilePolicy, Access, allowed, not_allowed, protected_path, under, under_any,
  canon, sysmon_root, profile_roots, is_hive_path, should_delete_hive_dir, is_protected_root,
  allowed_op, allowed_file, data_dir, install_dir, public_dir, hive_root, legacy_public_hive_root,
  slash, backslash, token_path,
}

has_prefix_trans :
    (n r s : Text) → has_prefix n r ≡ true → has_prefix r s ≡ true → has_prefix n s ≡ true
unfolding has_prefix
has_prefix_trans n r [] h k = refl
has_prefix_trans n [] (c ∷ s) h k = cc
has_prefix_trans [] (d ∷ r) (c ∷ s) h k = cc
has_prefix_trans (e ∷ n) (d ∷ r) (c ∷ s) h k = ground (arith, has_prefix_trans n r s)

has_prefix_append : (n r t : Text) → has_prefix n (r ++ t) ≡ true → has_prefix n r ≡ true
unfolding has_prefix
has_prefix_append n [] t h = refl
has_prefix_append [] (c ∷ r) t h = h
has_prefix_append (d ∷ n) (c ∷ r) t h = ground (arith, has_prefix_append n r t)

-- What lies under a path that lies under a root lies under the root.
under_trans : (n r s : Text) → under n r ≡ true → under r s ≡ true → under n s ≡ true
unfolding under
under_trans n r s h k = elim (Bool-cases (text_eq n r)) [
  | inl same ↦ rw (text_eq→eq n r same) k
  | inr below ↦ elim (Bool-cases (text_eq r s)) [
    | inl same ↦ rw (← text_eq→eq r s same) h
    | inr deep ↦
        let up = has_prefix_append n r slash (ground (arith, below)) in
        ground (arith, has_prefix_trans n r (s ++ slash) up)
  ]
]

-- filepath.Clean leaves the roots of the policy as they are: they are clean.
pub record KeepsRoots (clean : Text → Text) : Type 0 where
  pub data_root : clean data_dir ≡ data_dir
  pub hive_dir : clean hive_root ≡ hive_root
  pub public_root : clean public_dir ≡ public_dir
  pub legacy_dir : clean legacy_public_hive_root ≡ legacy_public_hive_root

module _ (clean : Text → Text) (p : FilePolicy) (path : Text) where
  -- Of the calls that read, only those for the token and the hives reach the agent's data, unless the
  -- path is also under the public folder, or the policy names a Sysmon folder or a user's profile there.
  pub get_data :
      under (canon clean path) (canon clean data_dir) ≡ true
      → under (canon clean path) (canon clean public_dir) ≡ false
      → under (canon clean path) (sysmon_root clean p) ≡ false
      → under_any (canon clean path) (profile_roots clean p) ≡ false
      → allowed_file clean p path get ≡ allowed
      → (canon clean path ≡ canon clean token_path)
        ⊎ (under (canon clean path) (canon clean hive_root) ≡ true)
  unfolding allowed_file allowed_op is_hive_path
  get_data d public sysmon prof h = ground (arith, token_eq)
    where
      token_eq :
          text_eq (canon clean path) (canon clean token_path) ≡ true
          → canon clean path ≡ canon clean token_path
      token_eq = text_eq→eq (canon clean path) (canon clean token_path)

-- The roots that the policy knows, in their canonical form.
hive_inside :
    (clean : Text → Text)
    → KeepsRoots clean
    → under (canon clean hive_root) (canon clean data_dir) ≡ true
unfolding canon under
hive_inside clean k =
    subst₂
      (λ a b.
        under (trim_right_char backslash (to_lower a)) (trim_right_char backslash (to_lower b))
        ≡ true)
      (sym k.hive_dir) (sym k.data_root) refl

legacy_inside :
    (clean : Text → Text)
    → KeepsRoots clean
    → under (canon clean legacy_public_hive_root) (canon clean public_dir) ≡ true
unfolding canon under
legacy_inside clean k =
    subst₂
      (λ a b.
        under (trim_right_char backslash (to_lower a)) (trim_right_char backslash (to_lower b))
        ≡ true)
      (sym k.legacy_dir) (sym k.public_root) refl

abbrev decide_put : (prot public sys prof : Bool) → Access
decide_put prot public sys prof =
    if prot
    then protected_path
    else if public || sys
    then allowed
    else if prof
    then allowed
    else not_allowed

abbrev decide_delete : (data_in install public sys hive legacy prof : Bool) → Access
decide_delete data_in install public sys hive legacy prof =
    if data_in || install
    then protected_path
    else if public || sys
    then allowed
    else if hive || legacy
    then allowed
    else if prof
    then allowed
    else not_allowed

same_decision :
    (data_in install public sys hive legacy prof : Bool)
    → (hive ≡ true → data_in ≡ true)
    → (legacy ≡ true → public ≡ true)
    → decide_delete data_in install public sys hive legacy prof
      ≡ decide_put (data_in || install) public sys prof
same_decision true install public sys hive legacy prof a b = refl
same_decision false true public sys hive legacy prof a b = refl
same_decision false false public sys true legacy prof a b = absurd (false≢true (a refl))
same_decision false false true sys false legacy prof a b = refl
same_decision false false false true false legacy prof a b = refl
same_decision false false false false false true prof a b = absurd (false≢true (b refl))
same_decision false false false false false false prof a b = refl

allowed_op-delete :
    (clean : Text → Text) (p : FilePolicy) (path : Text)
    → KeepsRoots clean
    → allowed_op clean p path (canon clean path) delete
      ≡ allowed_op clean p path (canon clean path) put
unfolding allowed_op should_delete_hive_dir is_protected_root is_hive_path
allowed_op-delete clean p path k =
    let n = canon clean path in
    same_decision (under n (canon clean data_dir)) (under n (canon clean install_dir))
      (under n (canon clean public_dir)) (under n (sysmon_root clean p))
      (under n (canon clean hive_root)) (under n (canon clean legacy_public_hive_root))
      (under_any n (profile_roots clean p))
      (λ h. under_trans n (canon clean hive_root) (canon clean data_dir) h (hive_inside clean k))
      (λ h.
        under_trans n (canon clean legacy_public_hive_root) (canon clean public_dir) h
          (legacy_inside clean k))

-- Where filepath.Clean leaves the fixed roots as they are, a delete is answered as a write is, path by path:
-- the branch for hive folders lets nothing through that a write does not, since those folders are
-- protected or public already. The name of the call in the message is left aside.
pub allowed_file-delete :
    (clean : Text → Text) (p : FilePolicy) (path : Text)
    → KeepsRoots clean
    → allowed_file clean p path delete ≡ allowed_file clean p path put
unfolding allowed_file
allowed_file-delete clean p path k = rw (allowed_op-delete clean p path k)
