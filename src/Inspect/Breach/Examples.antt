-- ===== src/Inspect/Breach/Examples.antt =====
-- A conversation with a public address, under a policy that lists TCP 8443 and UDP 443.
use quarantine_lab.Prelude.{
  ℕ, ◌≡◌, ◌↔◌, refl, true, false, Option, none, some, [], ◌∷◌, ◌++◌, if◌then◌else◌,
}
use quarantine_lab.Prelude.Int.{pos}
use quarantine_lab.Prelude.Text.{Text, codes, text_eq, to_lower, to_upper, trim_space}
use quarantine_lab.Policy.{PermissivePolicy, with_defaults, ports_of}
use quarantine_lab.Policy.Ports.{listed}
use quarantine_lab.Policy.Rules.{tcp, udp, forward_rules}
use quarantine_lab.Policy.Verdict.{accept, drop, run_chain, web_rules}
use quarantine_lab.Inspect.Ip.{
  Ip, v4, is_loopback, is_link_local_unicast, is_multicast, is_unspecified, is_private, contains,
}
use quarantine_lab.Inspect.Reserved.{is_reserved, in_nets, forward_chain}
use quarantine_lab.Inspect.Flow.{Flow}
use quarantine_lab.Inspect.Breach.{is_lab_ip}
use quarantine_lab.Inspect.Breach.Agreement.{
  IsOutbound, reason_of, reason_of-verdict, udp_web_unmarked,
}

abbrev parse_one : Text → Option Ip
parse_one t = if text_eq t (codes "8.8.4.4") then some (v4 8 8 4 4) else none

abbrev policy : PermissivePolicy
policy = record {
  tcp_ports = some (pos 8443 ∷ []);
  udp_ports = some (pos 443 ∷ []);
  force_dns_to_gateway = none;
  allow_icmp = none;
}

abbrev flow : Text → ℕ → Flow
flow transport port = record {
  id = [];
  transport = transport;
  protocol = codes "TLS";
  src_ip = [];
  dst_ip = codes "8.8.4.4";
  src_port = pos 50000;
  dst_port = pos port;
  stream = pos 0;
  packets = 1;
  bytes = pos 60;
  first = [];
  last = [];
  info = [];
  names = [];
  has_payload = true;
  policy_breach = false;
  policy_reason = [];
}

tcp-IsOutbound : IsOutbound parse_one (flow (codes " TCP") 22) none none none (v4 8 8 4 4) tcp 22
unfolding is_lab_ip is_loopback is_link_local_unicast is_multicast is_unspecified is_private
    to_lower to_upper trim_space
tcp-IsOutbound = record {
  to = refl;
  is_public = refl;
  at_port = refl;
  in_range = refl;
  carried = refl;
  plain = refl;
}

udp-IsOutbound : IsOutbound parse_one (flow (codes "udp") 443) none none none (v4 8 8 4 4) udp 443
unfolding is_lab_ip is_loopback is_link_local_unicast is_multicast is_unspecified is_private
    to_lower to_upper trim_space
udp-IsOutbound = record {
  to = refl;
  is_public = refl;
  at_port = refl;
  in_range = refl;
  carried = refl;
  plain = refl;
}

reason_of-verdict_example :
    ((reason_of parse_one policy (flow (codes " TCP") 22) none none none (v4 8 8 4 4) ≡ [])
      × (is_reserved (v4 8 8 4 4) ≡ false))
    ↔ (forward_chain policy (v4 8 8 4 4) (record { proto = tcp; dport = 22 }) ≡ accept)
reason_of-verdict_example =
    reason_of-verdict parse_one policy (flow (codes " TCP") 22) none none none (v4 8 8 4 4) tcp 22
      tcp-IsOutbound refl

listed_443 : listed (pos 443) (ports_of (with_defaults policy).udp_ports) ≡ true
unfolding listed with_defaults
listed_443 = refl

udp_web_unmarked_example :
    (reason_of parse_one policy (flow (codes "udp") 443) none none none (v4 8 8 4 4) ≡ [])
    × (run_chain (web_rules ++ forward_rules policy) (record { proto = udp; dport = 443 }) ≡ drop)
udp_web_unmarked_example =
    udp_web_unmarked parse_one policy (flow (codes "udp") 443) none none none (v4 8 8 4 4) 443
      udp-IsOutbound refl listed_443

-- An address for shared use, which the gateway drops, is not one of the lab.
shared_use :
    (is_reserved (v4 100 64 0 1) ≡ true) × (is_lab_ip none none none (v4 100 64 0 1) ≡ false)
unfolding is_reserved in_nets contains is_lab_ip is_loopback is_link_local_unicast is_multicast
    is_unspecified is_private
shared_use = (refl, refl)
