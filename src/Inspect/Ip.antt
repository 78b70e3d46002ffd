-- ===== src/Inspect/Ip.antt =====
-- Addresses as go/internal/pcapinspect/policy.go uses package net: after net.ParseIP, an IPv4 address
-- has four bytes and any other eight groups of 16 bits.
use quarantine_lab.Prelude.{
  ℕ, ◌+◌, ◌-◌, ◌*◌, ◌/◌, ◌^◌, Bool, false, ◌&&◌, ◌||◌, List, [], ◌∷◌, ◌==◌,
}

pub data Ip : Type 0 where
  v4 : ℕ → ℕ → ℕ → ℕ → Ip
  v6 : ℕ → ℕ → ℕ → ℕ → ℕ → ℕ → ℕ → ℕ → Ip

-- The address as one number of 32 or 128 bits, the first byte or group the highest.
abbrev fold_groups : ℕ → List ℕ → ℕ → ℕ
fold_groups base [] acc = acc
fold_groups base (g ∷ gs) acc = fold_groups base gs (acc * base + g)

pub value : Ip → ℕ
value (v4 a b c d) = fold_groups 256 (a ∷ b ∷ c ∷ d ∷ []) 0
value (v6 a b c d e f g h) = fold_groups 65536 (a ∷ b ∷ c ∷ d ∷ e ∷ f ∷ g ∷ h ∷ []) 0

unfoldable pub is_loopback : Ip → Bool
unfolding value
is_loopback (v4 a b c d) = a == 127
is_loopback (v6 a b c d e f g h) = value (v6 a b c d e f g h) == 1

unfoldable pub is_link_local_unicast : Ip → Bool
is_link_local_unicast (v4 a b c d) = a == 169 && b == 254
is_link_local_unicast (v6 a b c d e f g h) = a / 64 == 0xfe80 / 64

unfoldable pub is_multicast : Ip → Bool
is_multicast (v4 a b c d) = a / 16 == 14
is_multicast (v6 a b c d e f g h) = a / 256 == 0xff

unfoldable pub is_unspecified : Ip → Bool
unfolding value
is_unspecified ip = value ip == 0

unfoldable pub is_private : Ip → Bool
is_private (v4 a b c d) = a == 10 || a == 172 && b / 16 == 1 || a == 192 && b == 168
is_private (v6 a b c d e f g h) = a / 512 == 0xfc00 / 512

-- ip.Equal
unfoldable pub ip_equal : Ip → Ip → Bool
unfolding value
ip_equal (v4 a b c d) (v4 a' b' c' d') = a == a' && b == b' && c == c' && d == d'
ip_equal (v6 a b c d e f g h) (v6 a' b' c' d' e' f' g' h') =
    a == a' && b == b' && c == c' && d == d' && e == e' && f == f' && g == g' && h == h'
ip_equal _ _ = false

-- net.IPNet: an address and the length of its prefix
pub record IpNet : Type 0 where
  pub addr : Ip
  pub prefix : ℕ

pub same_net : ℕ → Ip → Ip → Bool
unfolding value
same_net n (v4 a b c d) (v4 a' b' c' d') =
    value (v4 a b c d) / 2 ^ (32 - n) == value (v4 a' b' c' d') / 2 ^ (32 - n)
same_net n (v6 a b c d e f g h) (v6 a' b' c' d' e' f' g' h') =
    value (v6 a b c d e f g h) / 2 ^ (128 - n) == value (v6 a' b' c' d' e' f' g' h') / 2 ^ (128 - n)
same_net _ _ _ = false

unfoldable pub contains : IpNet → Ip → Bool
unfolding same_net
contains n ip = same_net n.prefix n.addr ip
