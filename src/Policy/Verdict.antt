-- ===== src/Policy/Verdict.antt =====
-- What the gateway's forward chain does with a packet from the lab to a public address.
use quarantine_lab.Prelude.{
  ℕ, Bool, true, false, ◌&&◌, Option, none, some, List, [], ◌∷◌, if◌then◌else◌,
}
use quarantine_lab.Policy.{member}
use quarantine_lab.Policy.Rules.{
  Proto, tcp, udp, icmp_v4, icmp_v6, Rule, accept_icmp, accept_icmpv6, accept_ports, drop_ports,
  redirect_port, comment,
}

pub record Packet : Type 0 where
  pub proto : Proto
  pub dport : ℕ

pub data Verdict : Type 0 where
  accept drop : Verdict

abbrev pub same_proto : Proto → Proto → Bool
same_proto tcp tcp = true
same_proto udp udp = true
same_proto icmp_v4 icmp_v4 = true
same_proto icmp_v6 icmp_v6 = true
same_proto _ _ = false

-- The verdict of a rule, if it matches. Comments and redirections have none.
abbrev pub verdict_of : Rule → Packet → Option Verdict
verdict_of accept_icmp k = if same_proto k.proto icmp_v4 then some accept else none
verdict_of accept_icmpv6 k = if same_proto k.proto icmp_v6 then some accept else none
verdict_of (accept_ports p ports) k =
    if same_proto k.proto p && member k.dport ports then some accept else none
verdict_of (drop_ports p ports) k =
    if same_proto k.proto p && member k.dport ports then some drop else none
verdict_of (redirect_port p port) k = none
verdict_of (comment line) k = none

-- The first rule that matches decides. `policy drop` decides the rest.
unfoldable pub run_chain : List Rule → Packet → Verdict
run_chain [] k = drop
run_chain (r ∷ rs) k =
    let rest = run_chain rs k in elim (verdict_of r k) [ some v ↦ v | none ↦ rest ]

-- The rules of gateway/nftables.conf in front of the injected ones that look at ports.
abbrev pub web_rules : List Rule
web_rules = drop_ports tcp (80 ∷ 443 ∷ []) ∷ drop_ports udp (80 ∷ 443 ∷ []) ∷ []
