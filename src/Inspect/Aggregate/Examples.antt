-- ===== src/Inspect/Aggregate/Examples.antt =====
-- Two packets of one TCP stream and one of ICMP.
use quarantine_lab.Prelude.{ℕ, ◌≡◌, ◌≤◌, refl, none, false, List, [], ◌∷◌, length, arith}
use quarantine_lab.Prelude.Int.{ℤ, pos}
use quarantine_lab.Prelude.Text.{Text, codes, itoa, to_upper}
use quarantine_lab.Inspect.Flow.{decimal}
use quarantine_lab.Inspect.Aggregate.{
  Packet, aggregate_flows, aggregate_loop, add_to_flows, add_packet, count_packet, add_info,
  add_names, new_acc, flow_id, classify_protocol, better_protocol, is_generic, max_flows,
}
use quarantine_lab.Inspect.Aggregate.Counts.{packets_of, occurrences, packets_of-aggregate_flows}

abbrev packet : Text → ℤ → Packet
packet transport stream = record {
  t = none;
  protocol = codes "TCP";
  src_ip = codes "10.0.0.2";
  dst_ip = codes "8.8.8.8";
  src_port = pos 50000;
  dst_port = pos 22;
  transport = transport;
  stream = stream;
  length = pos 60;
  info = codes "x";
  names = [];
}

abbrev packets : List Packet
packets =
    packet (codes "tcp") (pos 7) ∷ packet (codes "icmp") (pos 0) ∷ packet (codes "tcp") (pos 7) ∷ []

abbrev format : ℕ → Text
format t = []

few_flows : length (aggregate_loop format [] packets) ≤ max_flows
unfolding aggregate_loop add_to_flows add_packet count_packet add_info add_names new_acc flow_id
    decimal itoa classify_protocol better_protocol
few_flows = omega arith

packets_of-aggregate_flows_example :
    packets_of (codes "tcp:7") (aggregate_flows format packets)
    ≡ occurrences (codes "tcp:7") packets
packets_of-aggregate_flows_example =
    packets_of-aggregate_flows format (codes "tcp:7") packets few_flows

-- The keys "IPv4" and "IPv6" of genericProto are never met, since the name is put in upper case first.
mixed_case : is_generic (codes "IPv4") ≡ false
unfolding is_generic to_upper
mixed_case = refl
