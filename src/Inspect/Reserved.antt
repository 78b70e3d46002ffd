-- ===== src/Inspect/Reserved.antt =====
-- gateway/nftables.conf: the addresses that the gateway never forwards to, and the forward chain with the
-- test for them in front. The packet is the first of a connection that the lab opens to the outside.
use quarantine_lab.Prelude.{ℕ, Bool, false, ◌||◌, List, [], ◌∷◌, ◌++◌, if◌then◌else◌}
use quarantine_lab.Policy.{PermissivePolicy}
use quarantine_lab.Policy.Rules.{forward_rules}
use quarantine_lab.Policy.Verdict.{Packet, Verdict, drop, run_chain, web_rules}
use quarantine_lab.Inspect.Ip.{Ip, v4, v6, IpNet, contains}

abbrev net : Ip → ℕ → IpNet
net ip n = record { addr = ip; prefix = n }

-- ip daddr and ip6 daddr of the two rules that drop
abbrev pub reserved_nets : List IpNet
reserved_nets =
    net (v4 0 0 0 0) 8
    ∷ net (v4 10 0 0 0) 8
    ∷ net (v4 127 0 0 0) 8
    ∷ net (v4 169 254 0 0) 16
    ∷ net (v4 172 16 0 0) 12
    ∷ net (v4 192 168 0 0) 16
    ∷ net (v4 100 64 0 0) 10
    ∷ net (v4 192 0 0 0) 24
    ∷ net (v4 192 0 2 0) 24
    ∷ net (v4 198 18 0 0) 15
    ∷ net (v4 198 51 100 0) 24
    ∷ net (v4 203 0 113 0) 24
    ∷ net (v4 224 0 0 0) 4
    ∷ net (v4 240 0 0 0) 4
    ∷ net (v6 0 0 0 0 0 0 0 1) 128
    ∷ net (v6 0 0 0 0 0 0 0 0) 128
    ∷ net (v6 0xfc00 0 0 0 0 0 0 0) 7
    ∷ net (v6 0xfe80 0 0 0 0 0 0 0) 10
    ∷ net (v6 0xff00 0 0 0 0 0 0 0) 8
    ∷ []

unfoldable pub in_nets : List IpNet → Ip → Bool
unfolding contains
in_nets [] ip = false
in_nets (n ∷ ns) ip = contains n ip || in_nets ns ip

unfoldable pub is_reserved : Ip → Bool
unfolding in_nets
is_reserved ip = in_nets reserved_nets ip

-- The forward chain, for a packet to an address
unfoldable pub forward_chain : PermissivePolicy → Ip → Packet → Verdict
unfolding is_reserved
forward_chain q dst k =
    let rest = run_chain (web_rules ++ forward_rules q) k in if is_reserved dst then drop else rest
