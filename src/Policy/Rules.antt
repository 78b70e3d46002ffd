-- ===== src/Policy/Rules.antt =====
-- The text that go/internal/config/nft_policy.go injects into the gateway's nftables.conf.
use Prim.Native.String.{String}
use quarantine_lab.Prelude.{
  ℕ, Bool, true, false, ◌||◌, ◌&&◌, not, List, [], ◌∷◌, ◌++◌, ◌==◌, if◌then◌else◌,
}
use quarantine_lab.Prelude.Text.{Text, codes, itoa}
use quarantine_lab.Policy.{
  PermissivePolicy, with_defaults, icmp, force_dns, ports_of, unique_sorted_ports,
}

pub data Proto : Type 0 where
  tcp udp icmp_v4 icmp_v6 other : Proto

-- A line of a rule set.
pub data Rule : Type 0 where
  accept_icmp accept_icmpv6 : Rule
  accept_ports drop_ports : Proto → List ℕ → Rule
  redirect_port : Proto → ℕ → Rule
  comment : String → Rule

-- for _, port := range ports { if skip { continue }; out = append(out, port) }
unfoldable pub without : (ℕ → Bool) → List ℕ → List ℕ
without skip [] = []
without skip (p ∷ ps) = let rest = without skip ps in if skip p then rest else p ∷ rest

-- if set := nftPortSet(ports); set != "" { … }: nothing is written for an empty set.
abbrev pub for_ports : (List ℕ → Rule) → List ℕ → List Rule
for_ports f [] = []
for_ports f (p ∷ ps) = f (p ∷ ps) ∷ []

abbrev pub when : Bool → List Rule → List Rule
when true rs = rs
when false rs = []

abbrev pub is_web : ℕ → Bool
is_web p = p == 80 || p == 443

abbrev pub is_dns : ℕ → Bool
is_dns p = p == 53 || p == 853

-- tcpWAN and udpWAN of PermissiveForwardRules, for a policy with its defaults filled in.
unfoldable pub tcp_wan : PermissivePolicy → List ℕ
tcp_wan p = without is_web (unique_sorted_ports (ports_of p.tcp_ports))

unfoldable pub udp_wan : PermissivePolicy → List ℕ
udp_wan p =
    without (λ port. force_dns p && is_dns port || is_web port)
      (unique_sorted_ports (ports_of p.udp_ports))

-- PermissiveForwardRules, line by line.
unfoldable pub forward_rules : PermissivePolicy → List Rule
forward_rules q =
    let p = with_defaults q in
    when (icmp p) (accept_icmp ∷ accept_icmpv6 ∷ [])
    ++ (when (force_dns p) (
          comment "    # DNS / DoT to WAN blocked — redirected to gateway in prerouting"
          ∷ drop_ports udp (53 ∷ 853 ∷ [])
          ∷ drop_ports tcp (53 ∷ 853 ∷ [])
          ∷ [])
        ++ (for_ports (accept_ports tcp) (tcp_wan p)
            ++ (for_ports (accept_ports udp) (udp_wan p)
                ++ comment
                    "    # No blanket LAN→WAN accept — remaining traffic is dropped (policy drop)."
                  ∷ [])))

-- strings.Join of the port numbers
abbrev pub join_ports : ℕ → List ℕ → Text
join_ports p [] = itoa p
join_ports p (q ∷ qs) = itoa p ++ (codes ", " ++ join_ports q qs)

-- nftPortSet of ports that are valid, sorted and distinct
unfoldable pub nft_port_set : List ℕ → Text
nft_port_set [] = []
nft_port_set (p ∷ []) = itoa p
nft_port_set (p ∷ q ∷ qs) = codes "{ " ++ (join_ports p (q ∷ qs) ++ codes " }")

abbrev pub proto_name : Proto → Text
proto_name tcp = codes "tcp"
proto_name udp = codes "udp"
proto_name _ = []

-- A rule behind what its chain matches on first, with its line end.
unfoldable pub render : Text → Rule → Text
unfolding nft_port_set
render match accept_icmp = match ++ codes "ip protocol icmp accept\n"
render match accept_icmpv6 = match ++ codes "ip6 nexthdr icmpv6 accept\n"
render match (accept_ports proto ps) =
    match ++ (proto_name proto ++ (codes " dport " ++ (nft_port_set ps ++ codes " accept\n")))
render match (drop_ports proto ps) =
    match ++ (proto_name proto ++ (codes " dport " ++ (nft_port_set ps ++ codes " drop\n")))
render match (redirect_port proto p) =
    match
    ++ (proto_name proto
        ++ (codes " dport " ++ (itoa p ++ (codes " redirect to :" ++ (itoa p ++ codes "\n")))))
render match (comment line) = codes line ++ codes "\n"

abbrev pub render_all : Text → List Rule → Text
render_all match [] = []
render_all match (r ∷ rs) = render match r ++ render_all match rs

abbrev pub lan_to_wan : Text
lan_to_wan = codes "    iifname \"__LAN__\" oifname \"__WAN__\" "

-- PermissiveForwardRules
unfoldable pub permissive_forward_rules : PermissivePolicy → Text
unfolding forward_rules tcp_wan udp_wan without with_defaults unique_sorted_ports render itoa
permissive_forward_rules p = render_all lan_to_wan (forward_rules p)

unfoldable pub nat_rules : PermissivePolicy → List Rule
nat_rules q =
    if not (force_dns (with_defaults q))
    then comment
        "    # forceDnsToGateway off — guest DNS to public resolvers may use WAN if UDP/TCP 53 is allowlisted"
      ∷ []
    else comment "    # Force guest DNS onto the gateway (dnsmasq / FakeNet listener)"
      ∷ redirect_port udp 53
      ∷ redirect_port tcp 53
      ∷ []

-- PermissiveNATRules
unfoldable pub permissive_nat_rules : PermissivePolicy → Text
unfolding nat_rules with_defaults render itoa
permissive_nat_rules p = render_all (codes "    iifname \"__LAN__\" ") (nat_rules p)

-- tcp dport { 80, 443 } accept, where the allowlist has no valid TCP port
abbrev pub or_web : List ℕ → List ℕ
or_web [] = 80 ∷ 443 ∷ []
or_web (p ∷ ps) = p ∷ ps

unfoldable pub output_rules : PermissivePolicy → List Rule
output_rules q =
    let p = with_defaults q in
    comment
      "    # Gateway-originated public upstream (mitm CONNECT / apt). Private space already dropped."
    ∷ accept_ports tcp (or_web (unique_sorted_ports (ports_of p.tcp_ports)))
    ∷ for_ports (accept_ports udp) (without is_dns (unique_sorted_ports (ports_of p.udp_ports)))

-- PermissiveOutputRules
unfoldable pub permissive_output_rules : PermissivePolicy → Text
unfolding output_rules with_defaults without unique_sorted_ports render itoa
permissive_output_rules p = render_all (codes "    ") (output_rules p)
