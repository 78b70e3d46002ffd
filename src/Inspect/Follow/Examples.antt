-- ===== src/Inspect/Follow/Examples.antt =====
-- Ids of two packets, and ids that are refused.
use quarantine_lab.Prelude.{◌≡◌, refl, inl, true, none, some, [], arith}
use quarantine_lab.Prelude.Int.{pos}
use quarantine_lab.Prelude.Text.{
  codes, to_lower, trim_space, trim_left, is_space, itoa, digits_rev, has_char,
}
use quarantine_lab.Inspect.Flow.{decimal}
use quarantine_lab.Inspect.Aggregate.{Packet, flow_id}
use quarantine_lab.Inspect.Follow.{
  atoi, strconv_atoi, digits_from, cut, stream_filter, icmp_filter, display_filter_for_id,
}
use quarantine_lab.Inspect.Follow.Streams.{follows, display_filter_for_id-flow_id}

abbrev packet : Packet
packet = record {
  t = none;
  protocol = codes "TLS";
  src_ip = codes "10.0.0.2";
  dst_ip = codes "1.1.1.1";
  src_port = pos 50000;
  dst_port = pos 443;
  transport = codes "tcp";
  stream = pos 7;
  length = pos 60;
  info = [];
  names = [];
}

display_filter_for_id-flow_id_example :
    display_filter_for_id (λ s. true) (flow_id packet) ≡ follows (codes "tcp") 7
display_filter_for_id-flow_id_example =
    display_filter_for_id-flow_id (λ s. true) packet 7 (inl refl) refl (omega arith)

-- A number with a sign or a zero before it is no stream.
signed_id :
    (display_filter_for_id (λ s. true) (codes "tcp:+7")).err ≡ some (codes "invalid stream id")
unfolding display_filter_for_id cut to_lower stream_filter decimal itoa digits_rev atoi strconv_atoi
    digits_from trim_space trim_left is_space
signed_id = refl

icmp_id :
    (display_filter_for_id (λ s. true) (codes "icmp:fe80::1>fe80::2")).filter
    ≡ codes "(icmp or icmpv6) and ipv6.src==fe80::1 and ipv6.dst==fe80::2"
unfolding display_filter_for_id cut to_lower icmp_filter has_char trim_space trim_left is_space
icmp_id = refl
