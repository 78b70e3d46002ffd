-- ===== src/Policy/Forward.antt =====
-- The injected rules let through exactly what the allowlist names.
use quarantine_lab.Prelude.{
  ℕ, ◌≡◌, ap, ◌∙◌, Bool, false, ◌&&◌, ◌||◌, not, List, [], ◌∷◌, ◌++◌, if◌then◌else◌, arith,
}
use quarantine_lab.Prelude.Int.{pos}
use quarantine_lab.Policy.{
  PermissivePolicy, with_defaults, force_dns, icmp, ports_of, member, unique_sorted_ports,
}
use quarantine_lab.Policy.Ports.{listed, valid_port, unique_sorted_ports_lem}
use quarantine_lab.Policy.Rules.{
  Proto, tcp, udp, icmp_v4, icmp_v6, other, Rule, accept_icmp, accept_icmpv6, drop_ports, comment,
  accept_ports, for_ports, when, without, is_web, is_dns, tcp_wan, udp_wan, forward_rules,
  output_rules,
}
use quarantine_lab.Policy.Verdict.{Packet, accept, drop, same_proto, run_chain, web_rules}

-- A port that the policy lists and that may go to the WAN at all.
abbrev pub to_wan : PermissivePolicy → ℕ → Bool → Bool
to_wan p port named =
    not (is_web port) && not (force_dns p && is_dns port) && (valid_port port && named)

-- What the allowlist means, for a policy with its defaults filled in.
unfoldable pub permitted : PermissivePolicy → Proto → ℕ → Bool
permitted p icmp_v4 port = icmp p
permitted p icmp_v6 port = icmp p
permitted p tcp port = to_wan p port (listed (pos port) (ports_of p.tcp_ports))
permitted p udp port = to_wan p port (listed (pos port) (ports_of p.udp_ports))
permitted p other port = false

member-without :
    (skip : ℕ → Bool) (p : ℕ) (xs : List ℕ)
    → member p (without skip xs) ≡ (not (skip p) && member p xs)
unfolding member without
member-without skip p [] = ground arith
member-without skip p (x ∷ xs) = ground (arith, member-without skip p xs)

run_chain-for_ports :
    (pr : Proto) (ps : List ℕ) (rest : List Rule) (k : Packet)
    → run_chain (for_ports (accept_ports pr) ps ++ rest) k
      ≡ (if same_proto k.proto pr && member k.dport ps then accept else run_chain rest k)
unfolding run_chain member
run_chain-for_ports pr [] rest k = ground arith
run_chain-for_ports pr (p ∷ ps) rest k = ground arith

abbrev allow_lists : PermissivePolicy → List Rule
allow_lists p =
    for_ports (accept_ports tcp) (tcp_wan p)
    ++ (for_ports (accept_ports udp) (udp_wan p)
        ++ comment "    # No blanket LAN→WAN accept — remaining traffic is dropped (policy drop)."
          ∷ [])

run_chain-allow_lists :
    (p : PermissivePolicy) (k : Packet)
    → run_chain (allow_lists p) k ≡ (
        if same_proto k.proto tcp && member k.dport (tcp_wan p)
        then accept
        else if same_proto k.proto udp && member k.dport (udp_wan p)
        then accept
        else drop)
unfolding run_chain
run_chain-allow_lists p k =
    run_chain-for_ports tcp (tcp_wan p) _ k
    ∙ ap (λ v. if same_proto k.proto tcp && member k.dport (tcp_wan p) then accept else v)
        (run_chain-for_ports udp (udp_wan p) _ k)

member-tcp_wan :
    (p : PermissivePolicy) (port : ℕ)
    → member port (tcp_wan p)
      ≡ (not (is_web port) && (valid_port port && listed (pos port) (ports_of p.tcp_ports)))
unfolding tcp_wan
member-tcp_wan p port =
    member-without is_web port (unique_sorted_ports (ports_of p.tcp_ports))
    ∙ ap (λ b. not (is_web port) && b) ((unique_sorted_ports_lem (ports_of p.tcp_ports)).1 port)

member-udp_wan :
    (p : PermissivePolicy) (port : ℕ)
    → member port (udp_wan p) ≡ (
        not (force_dns p && is_dns port || is_web port)
        && (valid_port port && listed (pos port) (ports_of p.udp_ports)))
unfolding udp_wan
member-udp_wan p port =
    member-without (λ x. force_dns p && is_dns x || is_web x) port
      (unique_sorted_ports (ports_of p.udp_ports))
    ∙ ap (λ b. not (force_dns p && is_dns port || is_web port) && b)
        ((unique_sorted_ports_lem (ports_of p.udp_ports)).1 port)

-- The rules in front of the allowlist, for each protocol.
module _ (ic fd : Bool) (rest : List Rule) (port : ℕ) where
  abbrev in_front : List Rule
  in_front =
      web_rules
      ++ (when ic (accept_icmp ∷ accept_icmpv6 ∷ [])
          ++ (when fd (
                comment "    # DNS / DoT to WAN blocked — redirected to gateway in prerouting"
                ∷ drop_ports udp (53 ∷ 853 ∷ [])
                ∷ drop_ports tcp (53 ∷ 853 ∷ [])
                ∷ [])
              ++ rest))

  in_front_lem :
      (pr : Proto)
      → run_chain in_front (record { proto = pr; dport = port }) ≡ (
          if (same_proto pr icmp_v4 || same_proto pr icmp_v6) && ic
          then accept
          else if (same_proto pr tcp || same_proto pr udp) && (is_web port || fd && is_dns port)
          then drop
          else run_chain rest (record { proto = pr; dport = port }))
  unfolding run_chain member
  in_front_lem tcp = ground arith
  in_front_lem udp = ground arith
  in_front_lem icmp_v4 = ground arith
  in_front_lem icmp_v6 = ground arith
  in_front_lem other = ground arith

verdict_by_proto :
    (p : PermissivePolicy) (pr : Proto) (port : ℕ)
    → run_chain
        (in_front (icmp p) (force_dns p) (allow_lists p) port)
        (record { proto = pr; dport = port })
      ≡ (if permitted p pr port then accept else drop)
unfolding permitted
verdict_by_proto p tcp port = ground (
  arith,
  in_front_lem (icmp p) (force_dns p) (allow_lists p) port tcp,
  run_chain-allow_lists p (record { proto = tcp; dport = port }),
  member-tcp_wan p port,
)
verdict_by_proto p udp port = ground (
  arith,
  in_front_lem (icmp p) (force_dns p) (allow_lists p) port udp,
  run_chain-allow_lists p (record { proto = udp; dport = port }),
  member-udp_wan p port,
)
verdict_by_proto p icmp_v4 port = ground (
  arith,
  in_front_lem (icmp p) (force_dns p) (allow_lists p) port icmp_v4,
  run_chain-allow_lists p (record { proto = icmp_v4; dport = port }),
)
verdict_by_proto p icmp_v6 port = ground (
  arith,
  in_front_lem (icmp p) (force_dns p) (allow_lists p) port icmp_v6,
  run_chain-allow_lists p (record { proto = icmp_v6; dport = port }),
)
verdict_by_proto p other port = ground (
  arith,
  in_front_lem (icmp p) (force_dns p) (allow_lists p) port other,
  run_chain-allow_lists p (record { proto = other; dport = port }),
)

-- Behind the fixed rules on web ports, the injected rules accept a packet from the lab to a public
-- address exactly if the policy permits it: ICMP if it is allowed, TCP and UDP to a listed port that
-- is valid, is not a web port and, where DNS is forced, is not a DNS port. All else is dropped.
pub forward_verdict :
    (q : PermissivePolicy) (pr : Proto) (port : ℕ)
    → run_chain (web_rules ++ forward_rules q) (record { proto = pr; dport = port })
      ≡ (if permitted (with_defaults q) pr port then accept else drop)
unfolding forward_rules
forward_verdict q pr port = verdict_by_proto (with_defaults q) pr port

run_chain-only :
    (pr : Proto) (ps : List ℕ) (k : Packet)
    → run_chain (for_ports (accept_ports pr) ps) k
      ≡ (if same_proto k.proto pr && member k.dport ps then accept else drop)
unfolding run_chain member
run_chain-only pr [] k = ground arith
run_chain-only pr (p ∷ ps) k = ground arith

-- The gateway itself may open UDP to exactly the valid ports of the list that are not DNS ports,
-- whatever the policy says of DNS.
pub output_verdict :
    (q : PermissivePolicy) (port : ℕ)
    → run_chain (output_rules q) (record { proto = udp; dport = port }) ≡ (
        if not (is_dns port)
          && (valid_port port && listed (pos port) (ports_of (with_defaults q).udp_ports))
        then accept
        else drop)
unfolding output_rules run_chain
output_verdict q port =
    let ps = ports_of (with_defaults q).udp_ports in
    run_chain-only udp (without is_dns (unique_sorted_ports ps))
      (record { proto = udp; dport = port })
    ∙ ap (λ b. if b then accept else drop)
        (member-without is_dns port (unique_sorted_ports ps)
          ∙ ap (λ b. not (is_dns port) && b) ((unique_sorted_ports_lem ps).1 port))
