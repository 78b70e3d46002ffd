-- ===== src/Inspect/Breach.antt =====
-- go/internal/pcapinspect/policy.go: conversations that the permissive allowlist denies are marked.
-- net.ParseIP is the argument `parse_ip`.
pub mod Agreement
mod Examples
use Prim.Native.String.{String}
use quarantine_lab.Prelude.{
  ℕ, Bool, true, false, ◌&&◌, ◌||◌, not, Option, none, some, List, [], ◌∷◌, ◌++◌, map,
  if◌then◌else◌,
}
use quarantine_lab.Prelude.Int.{ℤ, pos, negsuc, eq_ℤ}
use quarantine_lab.Prelude.Text.{Text, codes, text_eq, to_lower, to_upper, trim_space}
use quarantine_lab.Policy.{PermissivePolicy, with_defaults, force_dns, icmp, ports_of}
use quarantine_lab.Policy.Ports.{listed}
use quarantine_lab.Inspect.Ip.{
  Ip, IpNet, contains, is_loopback, is_link_local_unicast, is_multicast, is_unspecified, is_private,
  ip_equal,
}
use quarantine_lab.Inspect.Flow.{Flow, decimal}

-- portSet: the map's test. A set of ports is the function that tests it.
abbrev pub port_set : List ℤ → ℤ → Bool
port_set ps p = listed p ps

-- tcpOK, with tcpOK[80] = true and tcpOK[443] = true
abbrev pub tcp_ok : List ℤ → ℤ → Bool
tcp_ok ps p = eq_ℤ p (pos 443) || (eq_ℤ p (pos 80) || port_set ps p)

-- a != nil && ip.Equal(a)
abbrev pub is_ip : Option Ip → Ip → Bool
is_ip none ip = false
is_ip (some a) ip = ip_equal ip a

abbrev pub in_net : Option IpNet → Ip → Bool
in_net none ip = false
in_net (some n) ip = contains n ip

-- isLabIP, for an address that is not nil
unfoldable pub is_lab_ip : Option IpNet → Option Ip → Option Ip → Ip → Bool
is_lab_ip lan gw guest ip =
    if is_loopback ip || is_link_local_unicast ip || is_multicast ip || is_unspecified ip
    then true
    else if is_private ip
    then (if in_net lan ip then true else true)
    else if is_ip gw ip
    then true
    else if is_ip guest ip
    then true
    else false

abbrev pub is_lab : Option IpNet → Option Ip → Option Ip → Option Ip → Bool
is_lab lan gw guest none = false
is_lab lan gw guest (some ip) = is_lab_ip lan gw guest ip

-- firstNonEmpty
unfoldable pub first_non_empty : List Text → Text
first_non_empty [] = []
first_non_empty (v ∷ vs) =
    let rest = first_non_empty vs in if text_eq (trim_space v) [] then rest else v

abbrev pub is_dns_port : ℤ → Bool
is_dns_port p = eq_ℤ p (pos 53) || eq_ℤ p (pos 853)

-- What breachReason has computed before its first test: the parsed addresses, `tr` and `proto`.
pub record Seen : Type 0 where
  pub src : Option Ip
  pub tr : Text
  pub proto : Text

abbrev pub is : Text → String → Bool
is t s = text_eq t (codes s)

-- The last part of breachReason, for a conversation with a public address.
pub port_reason : Flow → PermissivePolicy → Option Ip → (tcp udp : ℤ → Bool) → Ip → Seen → Text
port_reason f pol gw tcp udp dst v =
    if is v.tr "icmp" || is v.proto "ICMP" || is v.proto "ICMPV6"
    then (if icmp pol then [] else codes "ICMP to WAN not allowed by permissive policy")
    else if force_dns pol
        && is_dns_port f.dst_port
        && (is v.tr "udp" || is v.tr "tcp" || is v.proto "DNS")
    then (if is_ip gw dst
        then []
        else codes "DNS/DoT to "
          ++ (f.dst_ip ++ (codes ":" ++ (decimal f.dst_port ++ codes " bypassed gateway"))))
    else if is v.tr "tcp"
    then (if tcp f.dst_port
        then []
        else codes "TCP/" ++ (decimal f.dst_port ++ codes " to WAN not in permissive allowlist"))
    else if is v.tr "udp"
    then (if udp f.dst_port
        then []
        else codes "UDP/" ++ (decimal f.dst_port ++ codes " to WAN not in permissive allowlist"))
    else first_non_empty (v.proto ∷ v.tr ∷ codes "traffic" ∷ [])
      ++ codes " to WAN not in permissive allowlist"

-- The early returns: src == nil, or what stands between the tests on the addresses.
abbrev pub inbound : Option Ip → Option Ip → Ip → Bool
inbound none guest dst = false
inbound (some src) guest dst = not (is_private src) && is_ip guest dst

-- breachReason for a destination that is an address
pub breach_of :
    Flow
    → PermissivePolicy
    → Option IpNet
    → Option Ip
    → Option Ip
    → (tcp udp : ℤ → Bool) → Ip
    → Seen
    → Text
breach_of f pol lan gw guest tcp udp dst v =
    if is v.proto "ARP" || is v.proto "IGMP" || is v.proto "DHCP" || is v.tr "arp"
    then []
    else if is_lab_ip lan gw guest dst
    then []
    else if is_ip guest dst
    then []
    else if not (is_lab lan gw guest v.src) && inbound v.src guest dst
    then []
    else port_reason f pol gw tcp udp dst v

module _ (parse_ip : Text → Option Ip) where
  pub breach_reason :
      Flow → PermissivePolicy → Option IpNet → Option Ip → Option Ip → (tcp udp : ℤ → Bool) → Text
  breach_reason f pol lan gw guest tcp udp = elim (parse_ip f.dst_ip) [
    | none ↦ []
    | some dst ↦ breach_of f pol lan gw guest tcp udp dst (record {
      src = parse_ip f.src_ip;
      tr = to_lower (trim_space f.transport);
      proto = to_upper (trim_space f.protocol);
    })
  ]

  abbrev pub mark : Flow → Text → Flow
  mark f [] = f
  mark f (c ∷ cs) = record f { policy_breach = true; policy_reason = c ∷ cs }

  -- AnnotatePolicyBreaches, with the LAN, the gateway and the guest parsed
  pub annotate_policy_breaches :
      PermissivePolicy → Option IpNet → Option Ip → Option Ip → List Flow → List Flow
  annotate_policy_breaches q lan gw guest flows =
      let pol = with_defaults q in
      map
        (λ f. mark f (
          breach_reason f pol lan gw guest (tcp_ok (ports_of pol.tcp_ports))
            (port_set (ports_of pol.udp_ports))))
        flows
