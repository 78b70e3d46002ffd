-- ===== src/Inspect/Follow.antt =====
-- DisplayFilterForID of go/internal/pcapinspect/aggregate.go, with atoi of types.go: the id of a conversation
-- becomes a display filter. `valid_ip` tells whether net.ParseIP takes a text.
pub mod Decimal
pub mod Streams
mod Examples
use quarantine_lab.Prelude.{
  ℕ, zero, suc, ◌+◌, ◌-◌, ◌*◌, ◌^◌, Bool, true, false, ◌&&◌, ◌||◌, not, Option, none, some, List,
  [], ◌∷◌, ◌++◌, ◌==◌, ltb, leb, if◌then◌else◌,
}
use quarantine_lab.Prelude.Int.{ℤ, pos, negsuc}
use quarantine_lab.Prelude.Text.{Text, codes, text_eq, to_lower, trim_space, has_char}
use quarantine_lab.Inspect.Flow.{decimal}

-- The four results
pub record DisplayFilter : Type 0 where
  pub kind : Text
  pub stream : ℤ
  pub filter : Text
  pub err : Option Text

-- The value of decimal digits after others; none if there is another character
unfoldable pub digits_from : ℕ → Text → Option ℕ
digits_from acc [] = some acc
digits_from acc (c ∷ s) =
    let rest = digits_from (acc * 10 + (c - b'0')) s in
    if leb b'0' c && leb c b'9' then rest else none

negative : ℕ → ℤ
negative zero = pos 0
negative (suc n) = negsuc n

-- strconv.Atoi without its error: 0 for what is no number, and the nearest int for one out of range
unfoldable pub strconv_atoi : Text → ℤ
unfolding digits_from negative
strconv_atoi [] = pos 0
strconv_atoi (c ∷ s) =
    let minus = c == b'-' in
    let digits = if minus || c == b'+' then s else c ∷ s in
    if text_eq digits [] then pos 0 else elim (digits_from 0 digits) [
      | none ↦ pos 0
      | some n ↦
          if minus
          then negative (if ltb (2 ^ 63) n then 2 ^ 63 else n)
          else pos (if ltb n (2 ^ 63) then n else 2 ^ 63 - 1)
    ]

-- atoi
unfoldable pub atoi : Text → ℤ
unfolding trim_space strconv_atoi
atoi s = let t = trim_space s in if text_eq t [] then pos 0 else strconv_atoi t

-- strings.Cut at a character: before it, after it, and whether it was there
unfoldable pub cut : ℕ → Text → Text × Text × Bool
cut a [] = ([], [], false)
cut a (c ∷ s) = let r = cut a s in if c == a then ([], s, true) else (c ∷ r.0, r.1, r.2)

is_negative : ℤ → Bool
is_negative (pos n) = false
is_negative (negsuc n) = true

invalid_id : Text → DisplayFilter
invalid_id e = record { kind = []; stream = pos 0; filter = []; err = some e }

-- The case of tcp and udp
unfoldable pub stream_filter : Text → Text → DisplayFilter
unfolding atoi is_negative invalid_id decimal
stream_filter kind rest =
    let stream = atoi rest in
    if text_eq rest [] || (is_negative stream || not (text_eq (decimal stream) rest))
    then invalid_id (codes "invalid stream id")
    else record {
      kind = kind;
      stream = stream;
      filter = kind ++ (codes ".stream eq " ++ decimal stream);
      err = none;
    }

module _ (valid_ip : Text → Bool) where
  unfoldable pub icmp_filter : Text → Text → DisplayFilter
  unfolding cut has_char invalid_id
  icmp_filter kind rest =
      let r = cut b'>' rest in
      let fam = if has_char b':' r.0 then codes "ipv6" else codes "ip" in
      if not r.2 || (not (valid_ip r.0) || not (valid_ip r.1))
      then invalid_id (codes "invalid icmp id")
      else record {
        kind = kind;
        stream = negsuc 0;
        filter =
            codes "(icmp or icmpv6) and "
            ++ (fam
                ++ (codes ".src=="
                    ++ (r.0 ++ (codes " and " ++ (fam ++ (codes ".dst==" ++ r.1))))));
        err = none;
      }

  unfoldable pub igmp_filter : Text → Text → DisplayFilter
  unfolding cut invalid_id
  igmp_filter kind rest =
      let r = cut b'>' rest in
      let dst_clause = if valid_ip r.1 then codes " and ip.dst==" ++ r.1 else [] in
      if not r.2 || not (valid_ip r.0) then invalid_id (codes "invalid igmp id") else record {
        kind = kind;
        stream = negsuc 0;
        filter = codes "igmp and ip.src==" ++ (r.0 ++ dst_clause);
        err = none;
      }

  -- DisplayFilterForID
  unfoldable pub display_filter_for_id : Text → DisplayFilter
  unfolding trim_space cut to_lower stream_filter icmp_filter igmp_filter invalid_id
  display_filter_for_id id =
      let r = cut b':' (trim_space id) in
      let kind = to_lower r.0 in
      if text_eq kind (codes "tcp") || text_eq kind (codes "udp")
      then stream_filter kind r.1
      else if text_eq kind (codes "icmp")
      then icmp_filter kind r.1
      else if text_eq kind (codes "arp")
      then record { kind = kind; stream = negsuc 0; filter = codes "arp"; err = none }
      else if text_eq kind (codes "igmp")
      then igmp_filter kind r.1
      else if text_eq kind (codes "other")
      then record {
        kind = kind;
        stream = negsuc 0;
        filter = [];
        err = some (codes "cannot follow other flow");
      }
      else invalid_id (codes "unknown flow id")
