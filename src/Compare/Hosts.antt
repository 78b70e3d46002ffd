-- ===== src/Compare/Hosts.antt =====
-- IsNetworkHostNoiseDomains: a domain of the list stands for itself and for what is below it.
use quarantine_lab.Prelude.{
  ◌≡◌, refl, sym, ap, ap₂, subst, ◌∙◌, ◌↔◌, ◌⊎◌, inl, inr, false≢true, Bool, true, false, ◌&&◌,
  ◌||◌, not, Option, List, [], ◌∷◌, ◌++◌, ◌==◌, arith, Bool-cases, ==_iff, drop, get_or,
  if◌then◌else◌,
}
use mathlib.Core.List.{reverse, reverse-append, reverse-reverse}
use quarantine_lab.Prelude.Text.{
  Text, codes, text_eq, text_eq→eq, text_eq_self, to_lower, trim_space, has_prefix, has_suffix,
}
use quarantine_lab.Compare.Noise.{
  under_domain, any_domain, lab_host, extract_network_host, is_network_host_noise_domains,
  or_default,
}
use quarantine_lab.Compare.Defaults.{default_noise_domains}
use quarantine_lab.Compare.Ordered.{Among}

-- A text ends with another.
abbrev pub EndsWith : Text → Text → Type 0
EndsWith s t = (x : Text) × (s ≡ x ++ t)

has_prefix_iff : (s t : Text) → (has_prefix s t ≡ true) ↔ ((x : Text) × (s ≡ t ++ x))
unfolding has_prefix
has_prefix_iff s [] = (λ h. (s, refl), λ h. refl)
has_prefix_iff [] (p ∷ ps) = (λ h. absurd (false≢true h), λ h. absurd cc)
has_prefix_iff (c ∷ s) (p ∷ ps) =
    let rest = has_prefix_iff s ps in
    elim (Bool-cases (c == p)) [
      | inl e ↦ rw e (
        λ h. let r = rest.0 h in (r.0, ap₂ ◌∷◌ ((==_iff c p).0 e) r.1),
        λ h. rest.1 (h.0, ap (drop 1) h.1),
      )
      | inr e ↦ rw e (
        λ h. absurd (false≢true h),
        λ h. absurd (false≢true (sym e ∙ (==_iff c p).1 (ap (λ t. get_or t 0 c) h.1))),
      )
    ]

has_suffix_iff : (s t : Text) → (has_suffix s t ≡ true) ↔ EndsWith s t
unfolding has_suffix
has_suffix_iff s t =
    let p = has_prefix_iff (reverse s) (reverse t) in
    (
      λ h.
          let r = p.0 h in
          (
            reverse r.0,
            sym (reverse-reverse s)
                ∙ ap reverse r.1
                ∙ reverse-append (reverse t) r.0
                ∙ ap (λ u. reverse r.0 ++ u) (reverse-reverse t),
          ),
      λ h. p.1 (reverse h.0, ap reverse h.1 ∙ reverse-append h.0 t),
    )

text_eq_iff : (s t : Text) → (text_eq s t ≡ true) ↔ (s ≡ t)
text_eq_iff s t = (text_eq→eq s t, λ e. subst (λ u. text_eq s u ≡ true) e (text_eq_self s))

or_iff : {P Q : Type 0} (a b : Bool) → (a ≡ true) ↔ P → (b ≡ true) ↔ Q → ((a || b) ≡ true) ↔ (P ⊎ Q)
or_iff true b p q = (λ h. inl (p.0 refl), λ h. refl)
or_iff false b p q =
    (λ h. inr (q.0 h), λ h. elim h [ inl x ↦ absurd (false≢true (p.1 x)) | inr y ↦ q.1 y ])

-- A host is a domain or one of its subdomains.
abbrev pub Under : Text → Text → Type 0
Under host domain = (host ≡ domain) ⊎ EndsWith host (b'.' ∷ domain)

abbrev pub LabHost : Text → Type 0
LabHost host =
    Under host (codes "home.arpa")
    ⊎ (((host ≡ codes "localhost") ⊎ (host ≡ codes "localhost.")) ⊎ EndsWith host (codes ".local"))

under_domain_iff : (h d : Text) → (under_domain h d ≡ true) ↔ Under h d
unfolding under_domain
under_domain_iff h d =
    or_iff (text_eq h d) (has_suffix h (b'.' ∷ d)) (text_eq_iff h d) (has_suffix_iff h (b'.' ∷ d))

lab_host_iff : (h : Text) → (lab_host h ≡ true) ↔ LabHost h
unfolding lab_host
lab_host_iff h =
    or_iff _ _
      (or_iff _ _ (text_eq_iff h (codes "home.arpa")) (has_suffix_iff h (codes ".home.arpa")))
      (or_iff _ _
        (or_iff _ _ (text_eq_iff h (codes "localhost")) (text_eq_iff h (codes "localhost.")))
        (has_suffix_iff h (codes ".local")))

-- One of the domains of a list, trimmed and in small letters, is not empty and has the host under it.
abbrev pub UnderAny : Text → List Text → Type 0
UnderAny host ds =
    (d : Text) × Among d ds
    × (text_eq (to_lower (trim_space d)) [] ≡ false)
    × Under host (to_lower (trim_space d))

any_domain_iff : (h : Text) (ds : List Text) → (any_domain h ds ≡ true) ↔ UnderAny h ds
unfolding any_domain
any_domain_iff h [] = (λ e. absurd (false≢true e), λ u. absurd u.1)
any_domain_iff h (d ∷ ds) =
    let rest = any_domain_iff h ds in
    let here = under_domain_iff h (to_lower (trim_space d)) in
    (
      λ e. elim (Bool-cases (text_eq (to_lower (trim_space d)) [])) [
        | inl n ↦ let r = rest.0 (rw n at e) in (r.0, inr r.1, r.2, r.3)
        | inr n ↦ elim (Bool-cases (under_domain h (to_lower (trim_space d)))) [
          | inl u ↦ (d, inl refl, n, here.0 u)
          | inr u ↦ let r = rest.0 (rw (n, u) at e) in (r.0, inr r.1, r.2, r.3)
        ]
      ],
      λ u. elim u.1 [
        | inl q ↦
            let n : text_eq (to_lower (trim_space d)) [] ≡ false =
              subst (λ t. text_eq (to_lower (trim_space t)) [] ≡ false) q u.2 in
            let k = here.1 (subst (λ t. Under h (to_lower (trim_space t))) q u.3) in rw (n, k) refl
        | inr m ↦
            either_true
              (not (text_eq (to_lower (trim_space d)) [])
                && under_domain h (to_lower (trim_space d)))
              (any_domain h ds) (rest.1 (u.0, m, u.2, u.3))
      ],
    )
  where
    either_true : (a b : Bool) → b ≡ true → (a || b) ≡ true
    either_true a b e = ground arith

-- IsNetworkHostNoiseDomains says yes exactly if there is a host in the text and it is a lab host, or is
-- one of the domains of the list or a subdomain of one, with a dot before it: a name that only ends
-- like a domain of the list is no noise. Without a list the built-in one is used; the empty list
-- leaves the lab hosts.
pub is_network_host_noise_domains_iff :
    (url_host : Text → Option Text) (text : Text) (suffixes : Option (List Text))
    → let host = extract_network_host url_host text in
      (is_network_host_noise_domains url_host text suffixes ≡ true) ↔ (
        (text_eq host [] ≡ false)
        × (LabHost host ⊎ UnderAny host (or_default default_noise_domains suffixes)))
unfolding is_network_host_noise_domains
is_network_host_noise_domains_iff url_host text suffixes =
    let host = extract_network_host url_host text in
    let domains = or_default default_noise_domains suffixes in
    let either =
      or_iff (lab_host host) (any_domain host domains) (lab_host_iff host)
        (any_domain_iff host domains) in
    elim (Bool-cases (text_eq host [])) [
      | inl e ↦ rw e (λ h. absurd (false≢true h), λ h. absurd (false≢true (sym h.0)))
      | inr e ↦ rw e (
        λ h. (refl, either.0 (as_or (lab_host host) (any_domain host domains) h)),
        λ h. of_or (lab_host host) (any_domain host domains) (either.1 h.1),
      )
    ]
  where
    as_or : (a b : Bool) → (if a then true else b) ≡ true → (a || b) ≡ true
    as_or a b h = ground arith

    of_or : (a b : Bool) → (a || b) ≡ true → (if a then true else b) ≡ true
    of_or a b h = ground arith
