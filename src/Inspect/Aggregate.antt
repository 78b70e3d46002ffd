-- ===== src/Inspect/Aggregate.antt =====
-- go/internal/pcapinspect/aggregate.go: packets become conversations. time.Time's Format is the
-- argument `format`. Texts are bytes here, which `len` counts.
pub mod Counts
mod Examples
use quarantine_lab.Prelude.{
  ℕ, suc, ◌+◌, map, Bool, true, false, ◌&&◌, ◌||◌, not, Option, none, some, List, [], ◌∷◌, ◌++◌,
  ltb, if◌then◌else◌, length, take,
}
use quarantine_lab.Prelude.Int.{ℤ, pos, eq_ℤ, add_ℤ}
use quarantine_lab.Prelude.Text.{Text, codes, text_eq, to_lower, to_upper, trim_space}
use quarantine_lab.Inspect.Flow.{Flow, decimal}
use quarantine_lab.Inspect.Breach.{first_non_empty}

-- The zero time is `none`.
pub record Packet : Type 0 where
  pub t : Option ℕ
  pub protocol : Text
  pub src_ip : Text
  pub dst_ip : Text
  pub src_port : ℤ
  pub dst_port : ℤ
  pub transport : Text
  pub stream : ℤ
  pub length : ℤ
  pub info : Text
  pub names : List Text

abbrev pub max_flows : ℕ
max_flows = 5000

abbrev pub port_protocols : List (ℤ × Text)
port_protocols =
    (pos 22, codes "SSH")
    ∷ (pos 23, codes "Telnet")
    ∷ (pos 25, codes "SMTP")
    ∷ (pos 53, codes "DNS")
    ∷ (pos 67, codes "DHCP")
    ∷ (pos 68, codes "DHCP")
    ∷ (pos 69, codes "TFTP")
    ∷ (pos 110, codes "POP3")
    ∷ (pos 123, codes "NTP")
    ∷ (pos 137, codes "NBNS")
    ∷ (pos 138, codes "NBDS")
    ∷ (pos 139, codes "SMB")
    ∷ (pos 143, codes "IMAP")
    ∷ (pos 161, codes "SNMP")
    ∷ (pos 162, codes "SNMP")
    ∷ (pos 179, codes "BGP")
    ∷ (pos 389, codes "LDAP")
    ∷ (pos 445, codes "SMB")
    ∷ (pos 465, codes "SMTPS")
    ∷ (pos 514, codes "Syslog")
    ∷ (pos 587, codes "SMTP")
    ∷ (pos 636, codes "LDAPS")
    ∷ (pos 993, codes "IMAPS")
    ∷ (pos 995, codes "POP3S")
    ∷ (pos 1433, codes "MSSQL")
    ∷ (pos 3306, codes "MySQL")
    ∷ (pos 3389, codes "RDP")
    ∷ (pos 5432, codes "PostgreSQL")
    ∷ (pos 5900, codes "VNC")
    ∷ (pos 9443, codes "Agent")
    ∷ []

abbrev pub generic_proto : List Text
generic_proto =
    []
    ∷ codes "TCP"
    ∷ codes "UDP"
    ∷ codes "IP"
    ∷ codes "IPv4"
    ∷ codes "IPv6"
    ∷ codes "ETH"
    ∷ codes "ETHERNET"
    ∷ codes "DATA"
    ∷ []

abbrev pub has_text : Text → List Text → Bool
has_text t [] = false
has_text t (u ∷ us) = text_eq t u || has_text t us

-- genericProto[strings.ToUpper(proto)]
unfoldable pub is_generic : Text → Bool
unfolding to_upper
is_generic proto = has_text (to_upper proto) generic_proto

-- portProtocols[port], "" for a port that is not there
unfoldable pub mapped_in : List (ℤ × Text) → ℤ → Text
mapped_in [] port = []
mapped_in ((p, name) ∷ rows) port = if eq_ℤ port p then name else mapped_in rows port

abbrev pub orelse : Text → Text → Text
orelse [] u = u
orelse (c ∷ s) u = c ∷ s

-- classifyProtocol
unfoldable pub classify_protocol : Packet → Text
unfolding is_generic mapped_in
classify_protocol p =
    let proto = trim_space p.protocol in
    if not (is_generic proto)
    then proto
    else orelse (mapped_in port_protocols p.dst_port)
        (orelse (mapped_in port_protocols p.src_port) (orelse proto (to_upper p.transport)))

-- betterProtocol
unfoldable pub better_protocol : Text → Text → Bool
unfolding is_generic
better_protocol candidate current =
    if text_eq candidate []
    then false
    else if text_eq current [] || is_generic current
    then not (is_generic candidate) || text_eq current []
    else false

-- flowID
unfoldable pub flow_id : Packet → Text
unfolding to_lower decimal first_non_empty
flow_id p =
    let between = p.src_ip ++ (codes ">" ++ p.dst_ip) in
    if text_eq p.transport (codes "tcp")
    then codes "tcp:" ++ decimal p.stream
    else if text_eq p.transport (codes "udp")
    then codes "udp:" ++ decimal p.stream
    else if text_eq p.transport (codes "icmp")
    then codes "icmp:" ++ between
    else if text_eq p.transport (codes "arp")
    then codes "arp:"
      ++ (first_non_empty (p.src_ip ∷ codes "unknown" ∷ [])
          ++ (codes ">" ++ first_non_empty (p.dst_ip ∷ codes "unknown" ∷ [])))
    else if text_eq p.transport (codes "igmp")
    then codes "igmp:" ++ between
    else codes "other:" ++ (to_lower p.protocol ++ (codes ":" ++ between))

-- acc: of `last`, only the time is read. `first` is never read.
pub record FlowAcc : Type 0 where
  pub flow : Flow
  pub last_t : Option ℕ
  pub seen : List Text
  pub names : List Text

-- " · " in UTF-8
abbrev pub separator : Text
separator = 32 ∷ 0xC2 ∷ 0xB7 ∷ 32 ∷ []

-- a.last, after a packet
abbrev pub later : Option ℕ → Option ℕ → Option ℕ
later none last = last
later (some t) none = some t
later (some t) (some l) = if ltb l t then some t else some l

-- p.info joins the others, if it is new and there is room.
unfoldable pub add_info : Text → FlowAcc → FlowAcc
add_info info a =
    if not (text_eq info []) && not (has_text info a.seen) && ltb (length a.flow.info) 400
    then record a {
      flow = record a.flow {
        info = (if text_eq a.flow.info [] then [] else a.flow.info ++ separator) ++ info;
      };
      seen = info ∷ a.seen;
    }
    else a

unfoldable pub add_names : List Text → FlowAcc → FlowAcc
add_names [] a = a
add_names (n ∷ ns) a =
    let key = codes "n:" ++ n in
    add_names ns (
      if text_eq n [] || has_text key a.seen
      then a
      else record a { seen = key ∷ a.seen; names = a.names ++ n ∷ [] })

-- The counters, the last time and the protocol, after a packet
unfoldable pub count_packet : Packet → FlowAcc → FlowAcc
unfolding classify_protocol better_protocol
count_packet p a =
    let proto = classify_protocol p in
    record a {
      flow = record a.flow {
        packets = suc a.flow.packets;
        bytes = add_ℤ a.flow.bytes p.length;
        protocol = if better_protocol proto a.flow.protocol then proto else a.flow.protocol;
      };
      last_t = later p.t a.last_t;
    }

-- What the loop does with a packet and the entry of its id.
unfoldable pub add_packet : Packet → FlowAcc → FlowAcc
unfolding count_packet add_info add_names
add_packet p a = add_names p.names (add_info p.info (count_packet p a))

abbrev pub formatted : (ℕ → Text) → Option ℕ → Text
formatted format none = []
formatted format (some t) = format t

module _ (format : ℕ → Text) where
  -- The entry of a new id
  unfoldable pub new_acc : Packet → FlowAcc
  unfolding flow_id classify_protocol
  new_acc p = record {
    flow = record {
      id = flow_id p;
      transport = p.transport;
      protocol = classify_protocol p;
      src_ip = p.src_ip;
      dst_ip = p.dst_ip;
      src_port = p.src_port;
      dst_port = p.dst_port;
      stream = p.stream;
      packets = 0;
      bytes = pos 0;
      first = formatted format p.t;
      last = [];
      info = [];
      names = [];
      has_payload = text_eq p.transport (codes "tcp") || text_eq p.transport (codes "udp");
      policy_breach = false;
      policy_reason = [];
    };
    last_t = p.t;
    seen = [];
    names = [];
  }

  -- One round of the first loop. The entries of byID stand in the order of `order`.
  unfoldable pub add_to_flows : Packet → List FlowAcc → List FlowAcc
  unfolding new_acc add_packet
  add_to_flows p [] = add_packet p (new_acc p) ∷ []
  add_to_flows p (a ∷ accs) =
      if text_eq (flow_id p) a.flow.id then add_packet p a ∷ accs else a ∷ add_to_flows p accs

  unfoldable pub aggregate_loop : List FlowAcc → List Packet → List FlowAcc
  unfolding add_to_flows
  aggregate_loop accs [] = accs
  aggregate_loop accs (p ∷ ps) = aggregate_loop (add_to_flows p accs) ps

  abbrev pub join_names : List Text → Text
  join_names [] = []
  join_names (n ∷ []) = n
  join_names (n ∷ m ∷ ns) = n ++ (codes ", " ++ join_names (m ∷ ns))

  -- One round of the second loop
  unfoldable pub finish_flow : FlowAcc → Flow
  finish_flow a = record a.flow {
    last = formatted format a.last_t;
    names = a.names;
    info = if text_eq a.flow.info [] then join_names a.names else a.flow.info;
  }

  -- aggregateFlows
  unfoldable pub aggregate_flows : List Packet → List Flow
  unfolding aggregate_loop finish_flow
  aggregate_flows pkts = map finish_flow (take max_flows (aggregate_loop [] pkts))
