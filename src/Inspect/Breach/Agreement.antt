-- ===== src/Inspect/Breach/Agreement.antt =====
-- The marks on a capture agree with what the gateway's rules did with the packets.
use quarantine_lab.Prelude.{
  ℕ, ◌≡◌, ◌↔◌, refl, sym, ap, ◌∙◌, Bool, true, false, ◌&&◌, ◌||◌, not, Option, none, some, ◌≢◌, [],
  ◌∷◌, ◌++◌, if◌then◌else◌, arith, Bool-cases, inl, inr, false≢true,
}
use quarantine_lab.Prelude.Int.{ℤ, pos}
use quarantine_lab.Prelude.Text.{Text, codes, to_lower, to_upper, trim_space}
use quarantine_lab.Policy.{PermissivePolicy, with_defaults, force_dns, icmp, ports_of}
use quarantine_lab.Policy.Ports.{listed, valid_port}
use quarantine_lab.Policy.Rules.{Proto, tcp, udp, icmp_v4, icmp_v6, other, is_web, forward_rules}
use quarantine_lab.Policy.Verdict.{accept, drop, run_chain, web_rules}
use quarantine_lab.Policy.Forward.{permitted, to_wan, forward_verdict}
use quarantine_lab.Inspect.Ip.{Ip, IpNet}
use quarantine_lab.Inspect.Reserved.{is_reserved, forward_chain}
use quarantine_lab.Inspect.Flow.{Flow}
use quarantine_lab.Inspect.Breach.{
  port_set, tcp_ok, inbound, is_lab, is_ip, is_lab_ip, is_dns_port, Seen, is, port_reason,
  breach_of, breach_reason, first_non_empty,
}

-- The transport that a capture shows for a packet of the protocol.
abbrev pub Carries : Proto → Text → Type 0
Carries tcp t = t ≡ codes "tcp"
Carries udp t = t ≡ codes "udp"
Carries icmp_v4 t = t ≡ codes "icmp"
Carries icmp_v6 t = t ≡ codes "icmp"
Carries other t =
    (is t "tcp" ≡ false) × (is t "udp" ≡ false) × (is t "icmp" ≡ false) × (is t "arp" ≡ false)

-- Application protocols that breachReason treats apart from the transport.
abbrev pub is_special : Text → Bool
is_special t = is t "ARP" || is t "IGMP" || is t "DHCP" || is t "ICMP" || is t "ICMPV6"

-- A conversation with a public address, over the protocol and to the port of the packet.
pub record IsOutbound (parse_ip : Text → Option Ip) (f : Flow) (lan : Option IpNet)
    (gw guest : Option Ip) (dst : Ip) (pr : Proto) (port : ℕ) : Type 0 where
  pub to : parse_ip f.dst_ip ≡ some dst
  pub is_public : is_lab_ip lan gw guest dst ≡ false
  pub at_port : f.dst_port ≡ pos port
  pub in_range : valid_port port ≡ true
  pub carried : Carries pr (to_lower (trim_space f.transport))
  pub plain : is_special (to_upper (trim_space f.protocol)) ≡ false

not_guest :
    (lan : Option IpNet) (gw guest : Option Ip) (dst : Ip)
    → is_lab_ip lan gw guest dst ≡ false
    → (is_ip guest dst ≡ false) × (is_ip gw dst ≡ false)
unfolding is_lab_ip
not_guest lan gw guest dst h = ground arith

Carries-not_arp : (pr : Proto) (t : Text) → Carries pr t → is t "arp" ≡ false
Carries-not_arp tcp t h = rw h
Carries-not_arp udp t h = rw h
Carries-not_arp icmp_v4 t h = rw h
Carries-not_arp icmp_v6 t h = rw h
Carries-not_arp other t h = h.3

not_inbound :
    (src guest : Option Ip) (dst : Ip) → is_ip guest dst ≡ false → inbound src guest dst ≡ false
not_inbound none guest dst h = refl
not_inbound (some src) guest dst h = ground arith

-- Of the early returns none is taken.
no_return :
    (arp igmp dhcp icmp icmpv6 tr_arp lab guest src_lab inb : Bool) (x : Text)
    → (arp || igmp || dhcp || icmp || icmpv6) ≡ false
    → tr_arp ≡ false
    → lab ≡ false
    → guest ≡ false
    → inb ≡ false
    → (if arp || igmp || dhcp || tr_arp
        then []
        else if lab
        then []
        else if guest
        then []
        else if not src_lab && inb
        then []
        else x)
      ≡ x
no_return arp igmp dhcp icmp icmpv6 tr_arp lab guest src_lab inb x a b c d e = ground arith

breach_of-port_reason :
    (f : Flow) (pol : PermissivePolicy) (lan : Option IpNet) (gw guest : Option Ip)
    (tcp_set udp_set : ℤ → Bool) (dst : Ip) (v : Seen)
    → is_lab_ip lan gw guest dst ≡ false
    → is_special v.proto ≡ false
    → is v.tr "arp" ≡ false
    → breach_of f pol lan gw guest tcp_set udp_set dst v
      ≡ port_reason f pol gw tcp_set udp_set dst v
unfolding breach_of
breach_of-port_reason f pol lan gw guest tcp_set udp_set dst v a b c =
    let g = (not_guest lan gw guest dst a).0 in
    no_return (is v.proto "ARP") (is v.proto "IGMP") (is v.proto "DHCP") (is v.proto "ICMP")
      (is v.proto "ICMPV6") (is v.tr "arp") (is_lab_ip lan gw guest dst) (is_ip guest dst)
      (is_lab lan gw guest v.src) (inbound v.src guest dst)
      (port_reason f pol gw tcp_set udp_set dst v) b c a g (not_inbound v.src guest dst g)

-- Which conversations have no reason.
silent : Proto → Bool → Bool → Bool → Bool → Bool
silent tcp icmp_on dns tcp_in udp_in = not dns && tcp_in
silent udp icmp_on dns tcp_in udp_in = not dns && udp_in
silent icmp_v4 icmp_on dns tcp_in udp_in = icmp_on
silent icmp_v6 icmp_on dns tcp_in udp_in = icmp_on
silent other icmp_on dns tcp_in udp_in = false

append-ne-nil : (s : Text) (c : ℕ) (t : Text) → s ++ c ∷ t ≢ []
append-ne-nil [] c t = λ e. cc
append-ne-nil (d ∷ s) c t = λ e. cc

port_reason-silent :
    (f : Flow) (pol : PermissivePolicy) (gw : Option Ip) (tcp_set udp_set : ℤ → Bool) (dst : Ip)
    (v : Seen) (pr : Proto)
    → Carries pr v.tr
    → is v.proto "ICMP" ≡ false
    → is v.proto "ICMPV6" ≡ false
    → is_ip gw dst ≡ false
    → (port_reason f pol gw tcp_set udp_set dst v ≡ []) ↔ (
        silent pr
          (icmp pol)
          (force_dns pol && is_dns_port f.dst_port)
          (tcp_set f.dst_port)
          (udp_set f.dst_port)
        ≡ true)
unfolding port_reason silent
port_reason-silent f pol gw tcp_set udp_set dst v tcp c i i6 g =
    let at_icmp : is v.tr "icmp" ≡ false = rw c in
    let at_tcp : is v.tr "tcp" ≡ true = rw c in
    let at_udp : is v.tr "udp" ≡ false = rw c in ground arith
port_reason-silent f pol gw tcp_set udp_set dst v udp c i i6 g =
    let at_icmp : is v.tr "icmp" ≡ false = rw c in
    let at_tcp : is v.tr "tcp" ≡ false = rw c in
    let at_udp : is v.tr "udp" ≡ true = rw c in ground arith
port_reason-silent f pol gw tcp_set udp_set dst v icmp_v4 c i i6 g =
    let at_icmp : is v.tr "icmp" ≡ true = rw c in
    let at_tcp : is v.tr "tcp" ≡ false = rw c in
    let at_udp : is v.tr "udp" ≡ false = rw c in ground arith
port_reason-silent f pol gw tcp_set udp_set dst v icmp_v6 c i i6 g =
    let at_icmp : is v.tr "icmp" ≡ true = rw c in
    let at_tcp : is v.tr "tcp" ≡ false = rw c in
    let at_udp : is v.tr "udp" ≡ false = rw c in ground arith
port_reason-silent f pol gw tcp_set udp_set dst v other c i i6 g =
    let some_text =
      append-ne-nil (first_non_empty (v.proto ∷ v.tr ∷ codes "traffic" ∷ [])) b' '
        (codes "to WAN not in permissive allowlist") in
    ground (arith, some_text)

-- The two sets of ports against the policy's own test.
silent-permitted :
    (p : PermissivePolicy) (pr : Proto) (port : ℕ)
    → valid_port port ≡ true
    → is_web port ≡ false
    → silent pr
        (icmp p)
        (force_dns p && is_dns_port (pos port))
        (tcp_ok (ports_of p.tcp_ports) (pos port))
        (port_set (ports_of p.udp_ports) (pos port))
      ≡ permitted p pr port
unfolding silent permitted
silent-permitted p tcp port v w = ground arith
silent-permitted p udp port v w = ground arith
silent-permitted p _ port v w = refl

accept_iff : (b : Bool) → ((if b then accept else drop) ≡ accept) ↔ (b ≡ true)
accept_iff b = ground arith

or_icmp : (a b c d e : Bool) → (a || b || c || d || e) ≡ false → (d ≡ false) × (e ≡ false)
or_icmp a b c d e h = ground arith

not_icmp : (t : Text) → is_special t ≡ false → (is t "ICMP" ≡ false) × (is t "ICMPV6" ≡ false)
not_icmp t h = or_icmp (is t "ARP") (is t "IGMP") (is t "DHCP") (is t "ICMP") (is t "ICMPV6") h

web_silent :
    (dns : Bool) (port : ℕ) (named : Bool)
    → is_web port ≡ true
    → named ≡ true
    → (not (dns && is_dns_port (pos port)) && named) ≡ true
web_silent dns port named w n = ground arith

web_dropped :
    (p : PermissivePolicy) (port : ℕ) (named : Bool)
    → is_web port ≡ true
    → (if to_wan p port named then accept else drop) ≡ drop
web_dropped p port named w = ground arith

module _ (parse_ip : Text → Option Ip) (q : PermissivePolicy) (f : Flow) (lan : Option IpNet)
    (gw guest : Option Ip) (dst : Ip) where
  -- breachReason as AnnotatePolicyBreaches calls it, for the policy of the configuration.
  abbrev pub reason_of : Text
  reason_of =
      let p = with_defaults q in
      breach_reason parse_ip f p lan gw guest (tcp_ok (ports_of p.tcp_ports))
        (port_set (ports_of p.udp_ports))

  reason_of-silent :
      (pr : Proto) (port : ℕ)
      → IsOutbound parse_ip f lan gw guest dst pr port
      → let p = with_defaults q in
        (reason_of ≡ []) ↔ (
          silent pr
            (icmp p)
            (force_dns p && is_dns_port (pos port))
            (tcp_ok (ports_of p.tcp_ports) (pos port))
            (port_set (ports_of p.udp_ports) (pos port))
          ≡ true)
  unfolding breach_reason
  reason_of-silent pr port o =
      let p = with_defaults q in
      let t = tcp_ok (ports_of p.tcp_ports) in
      let u = port_set (ports_of p.udp_ports) in
      let v : Seen = record {
        src = parse_ip f.src_ip;
        tr = to_lower (trim_space f.transport);
        proto = to_upper (trim_space f.protocol);
      } in
      let reason : reason_of ≡ port_reason f p gw t u dst v =
        rw (o.to, breach_reason)
          (breach_of-port_reason f p lan gw guest t u dst v o.is_public o.plain
            (Carries-not_arp pr v.tr o.carried)) in
      let (i4, i6) = not_icmp v.proto o.plain in
      let iff =
        port_reason-silent f p gw t u dst v pr o.carried i4 i6
          (not_guest lan gw guest dst o.is_public).1 in
      let same =
        ap (λ d. silent pr (icmp p) (force_dns p && is_dns_port d) (t d) (u d)) o.at_port in
      (λ h. sym same ∙ iff.0 (sym reason ∙ h), λ h. reason ∙ iff.1 (same ∙ h))

  -- The gateway's forward chain accepts the packets of a conversation with an address outside of the lab,
  -- to a port that is no web port, exactly if the conversation gets no mark and the address is not one
  -- that the gateway holds for reserved. The search for breaches does not look at reserved addresses.
  -- Conversations whose protocol is ARP, IGMP, DHCP or ICMP by name are left aside.
  pub reason_of-verdict :
      (pr : Proto) (port : ℕ)
      → IsOutbound parse_ip f lan gw guest dst pr port
      → is_web port ≡ false
      → ((reason_of ≡ []) × (is_reserved dst ≡ false))
        ↔ (forward_chain q dst (record { proto = pr; dport = port }) ≡ accept)
  unfolding forward_chain
  reason_of-verdict pr port o w =
      let p = with_defaults q in
      let same = silent-permitted p pr port o.in_range w in
      let chain = forward_verdict q pr port in
      let iff = reason_of-silent pr port o in
      elim (Bool-cases (is_reserved dst)) [
        | inl r ↦ (
          λ h. absurd (false≢true (sym h.1 ∙ r)),
          λ h. absurd (dropped (rw (forward_chain, r) at h)),
        )
        | inr r ↦ (
          λ h.
              rw (forward_chain, r)
                (chain ∙ (accept_iff (permitted p pr port)).1 (sym same ∙ iff.0 h.0)),
          λ h. (
            iff.1 (
                same
                ∙ (accept_iff (permitted p pr port)).0 (sym chain ∙ (rw (forward_chain, r) at h))),
            r,
          ),
        )
      ]
    where
      dropped : drop ≡ accept → ⊥
      dropped e = cc

  -- UDP to a web port that the allowlist names gets no mark, though the forward chain drops it: the
  -- search for breaches leaves out the rules on web ports.
  pub udp_web_unmarked :
      (port : ℕ)
      → IsOutbound parse_ip f lan gw guest dst udp port
      → is_web port ≡ true
      → listed (pos port) (ports_of (with_defaults q).udp_ports) ≡ true
      → (reason_of ≡ [])
        × (run_chain (web_rules ++ forward_rules q) (record { proto = udp; dport = port }) ≡ drop)
  unfolding silent permitted
  udp_web_unmarked port o w named =
      let p = with_defaults q in
      (
        (reason_of-silent udp port o).1
            (web_silent (force_dns p) port (listed (pos port) (ports_of p.udp_ports)) w named),
        forward_verdict q udp port
            ∙ web_dropped p port (listed (pos port) (ports_of p.udp_ports)) w,
      )
