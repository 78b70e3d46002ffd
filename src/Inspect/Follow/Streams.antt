-- ===== src/Inspect/Follow/Streams.antt =====
-- The ids that flowID gives to conversations over TCP and UDP, and their display filters.
use quarantine_lab.Prelude.{ℕ, ◌^◌, ◌<◌, ◌≡◌, refl, ◌∙◌, ◌⊎◌, inl, inr, Bool, none, ◌++◌, arith}
use quarantine_lab.Prelude.Int.{pos}
use quarantine_lab.Prelude.Text.{Text, codes, text_eq_self, to_lower, trim_space, is_space, itoa}
use quarantine_lab.Secrets.Counts.{trim_space-kept}
use quarantine_lab.Inspect.Flow.{decimal}
use quarantine_lab.Inspect.Aggregate.{Packet, flow_id}
use quarantine_lab.Inspect.Follow.{
  DisplayFilter, cut, is_negative, stream_filter, display_filter_for_id,
}
use quarantine_lab.Inspect.Follow.Decimal.{itoa-is_space, itoa-nonempty, atoi-itoa}

-- The filter of a stream
abbrev pub follows : Text → ℕ → DisplayFilter
follows kind n = record {
  kind = kind;
  stream = pos n;
  filter = kind ++ (codes ".stream eq " ++ itoa n);
  err = none;
}

stream_filter-itoa :
    (kind : Text) (n : ℕ) → n < 2 ^ 63 → stream_filter kind (itoa n) ≡ follows kind n
unfolding stream_filter decimal
stream_filter-itoa kind n h =
    rw (stream_filter, itoa-nonempty n, atoi-itoa n h, is_negative, decimal, text_eq_self (itoa n))
      refl

-- The id that is cut is the id: there is no white space at its ends.
abbrev stream_id : Text → ℕ → Text
stream_id kind n = kind ++ (codes ":" ++ itoa n)

tcp-kept : (n : ℕ) → trim_space (stream_id (codes "tcp") n) ≡ stream_id (codes "tcp") n
unfolding is_space
tcp-kept n = trim_space-kept _ (ground (arith, itoa-is_space n))

udp-kept : (n : ℕ) → trim_space (stream_id (codes "udp") n) ≡ stream_id (codes "udp") n
unfolding is_space
udp-kept n = trim_space-kept _ (ground (arith, itoa-is_space n))

display_filter-tcp :
    (valid_ip : Text → Bool) (n : ℕ)
    → display_filter_for_id valid_ip (stream_id (codes "tcp") n)
      ≡ stream_filter (codes "tcp") (itoa n)
unfolding display_filter_for_id cut to_lower
display_filter-tcp valid_ip n = rw (display_filter_for_id, tcp-kept n) refl

display_filter-udp :
    (valid_ip : Text → Bool) (n : ℕ)
    → display_filter_for_id valid_ip (stream_id (codes "udp") n)
      ≡ stream_filter (codes "udp") (itoa n)
unfolding display_filter_for_id cut to_lower
display_filter-udp valid_ip n = rw (display_filter_for_id, udp-kept n) refl

-- DisplayFilterForID takes back the ids that flowID gives to packets over TCP and UDP with a stream: the
-- kind is the transport, the stream is the number that tshark gave it, and the filter selects that stream.
-- The number is an int.
pub display_filter_for_id-flow_id :
    (valid_ip : Text → Bool) (p : Packet) (n : ℕ)
    → (p.transport ≡ codes "tcp") ⊎ (p.transport ≡ codes "udp")
    → p.stream ≡ pos n
    → n < 2 ^ 63
    → display_filter_for_id valid_ip (flow_id p) ≡ follows p.transport n
unfolding flow_id decimal
display_filter_for_id-flow_id valid_ip p n (inl t) e h =
    rw (flow_id, t, e) (display_filter-tcp valid_ip n ∙ stream_filter-itoa (codes "tcp") n h)
display_filter_for_id-flow_id valid_ip p n (inr t) e h =
    rw (flow_id, t, e) (display_filter-udp valid_ip n ∙ stream_filter-itoa (codes "udp") n h)
