-- ===== src/Policy.antt =====
-- The allowlist for real internet: PermissivePolicy of go/internal/config/config.go, and the nftables
-- rules that go/internal/config/nft_policy.go writes for the gateway.
pub mod Ports
pub mod Rules
pub mod Verdict
pub mod Forward
mod Examples
use quarantine_lab.Prelude.{
  ℕ, suc, Bool, true, false, ◌&&◌, ◌||◌, not, Option, none, some, List, [], ◌∷◌, ◌++◌, ◌==◌, ltb,
  leb, if◌then◌else◌,
}
use quarantine_lab.Prelude.Int.{ℤ, pos, negsuc, eq_ℤ}

-- `none` is a nil slice or pointer: the field was not in the configuration.
pub record PermissivePolicy : Type 0 where
  pub tcp_ports : Option (List ℤ)
  pub udp_ports : Option (List ℤ)
  pub force_dns_to_gateway : Option Bool
  pub allow_icmp : Option Bool

-- DefaultPermissivePolicy
abbrev pub default_permissive_policy : PermissivePolicy
default_permissive_policy = record {
  tcp_ports = some (pos 80 ∷ pos 443 ∷ []);
  udp_ports = some [];
  force_dns_to_gateway = some true;
  allow_icmp = some true;
}

-- boolOr
abbrev pub bool_or : Option Bool → Bool → Bool
bool_or none d = d
bool_or (some b) d = b

abbrev pub force_dns : PermissivePolicy → Bool
force_dns p = bool_or p.force_dns_to_gateway true

abbrev pub icmp : PermissivePolicy → Bool
icmp p = bool_or p.allow_icmp true

abbrev pub or_default {ℓ} : {A : Type ℓ} → Option A → Option A → Option A
or_default none d = d
or_default (some a) d = some a

-- WithDefaults
unfoldable pub with_defaults : PermissivePolicy → PermissivePolicy
with_defaults p = record {
  tcp_ports = or_default p.tcp_ports default_permissive_policy.tcp_ports;
  udp_ports = or_default p.udp_ports default_permissive_policy.udp_ports;
  force_dns_to_gateway =
      or_default p.force_dns_to_gateway default_permissive_policy.force_dns_to_gateway;
  allow_icmp = or_default p.allow_icmp default_permissive_policy.allow_icmp;
}

-- Ranging over a slice: a nil slice has no elements.
abbrev pub ports_of : Option (List ℤ) → List ℤ
ports_of none = []
ports_of (some ps) = ps

unfoldable pub member : ℕ → List ℕ → Bool
member p [] = false
member p (q ∷ qs) = p == q || member p qs

-- The loop of uniqueSortedPorts: `out` holds the ports that `seen` marks.
pub unique_loop : List ℤ → List ℕ → List ℕ
unique_loop [] out = out
unique_loop (negsuc n ∷ ps) out = unique_loop ps out
unique_loop (pos p ∷ ps) out =
    unique_loop ps (if ltb p 1 || ltb 65535 p || member p out then out else out ++ p ∷ [])

pub insert_sorted : ℕ → List ℕ → List ℕ
insert_sorted p [] = p ∷ []
insert_sorted p (q ∷ qs) = if leb p q then p ∷ q ∷ qs else q ∷ insert_sorted p qs

-- sort.Ints
pub sort_ints : List ℕ → List ℕ
sort_ints [] = []
sort_ints (p ∷ ps) = insert_sorted p (sort_ints ps)

-- uniqueSortedPorts
unfoldable pub unique_sorted_ports : List ℤ → List ℕ
unfolding unique_loop sort_ints insert_sorted member
unique_sorted_ports ps = sort_ints (unique_loop ps [])
