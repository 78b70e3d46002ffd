-- ===== src/Policy/Examples.antt =====
-- The rule texts of go/internal/config/nft_policy_test.go.
use quarantine_lab.Prelude.{◌≡◌, refl, true, false, none, some, [], ◌∷◌, ◌++◌, if◌then◌else◌}
use quarantine_lab.Prelude.Text.{codes}
use quarantine_lab.Prelude.Int.{pos, negsuc}
use quarantine_lab.Policy.{PermissivePolicy, with_defaults}
use quarantine_lab.Policy.Rules.{permissive_forward_rules, tcp, forward_rules}
use quarantine_lab.Policy.Ports.{listed}
use quarantine_lab.Policy.Verdict.{accept, drop, run_chain, web_rules}
use quarantine_lab.Policy.Forward.{permitted, forward_verdict}

abbrev lab_policy : PermissivePolicy
lab_policy = record {
  tcp_ports = some (pos 8443 ∷ pos 80 ∷ negsuc 4 ∷ pos 22 ∷ pos 22 ∷ []);
  udp_ports = some (pos 443 ∷ pos 53 ∷ pos 123 ∷ []);
  force_dns_to_gateway = none;
  allow_icmp = some false;
}

forward_text :
    permissive_forward_rules lab_policy
    ≡ codes "    # DNS / DoT to WAN blocked — redirected to gateway in prerouting\n"
      ++ (codes "    iifname \"__LAN__\" oifname \"__WAN__\" udp dport { 53, 853 } drop\n"
          ++ (codes "    iifname \"__LAN__\" oifname \"__WAN__\" tcp dport { 53, 853 } drop\n"
              ++ (codes
                    "    iifname \"__LAN__\" oifname \"__WAN__\" tcp dport { 22, 8443 } accept\n"
                  ++ (codes "    iifname \"__LAN__\" oifname \"__WAN__\" udp dport 123 accept\n"
                      ++ codes
                          "    # No blanket LAN→WAN accept — remaining traffic is dropped (policy drop).\n"))))
unfolding permissive_forward_rules
forward_text = refl

-- 8443 is on the list.
forward_verdict_example :
    run_chain (web_rules ++ forward_rules lab_policy) (record { proto = tcp; dport = 8443 })
    ≡ (if permitted (with_defaults lab_policy) tcp 8443 then accept else drop)
forward_verdict_example = forward_verdict lab_policy tcp 8443

permitted_8443 : permitted (with_defaults lab_policy) tcp 8443 ≡ true
unfolding permitted with_defaults listed
permitted_8443 = refl
