-- ===== src/Exit/Access.antt =====
-- internal/exit/access.go: which addresses the exit dials. An address is a `net.IP`, the slice of its
-- bytes; the methods of `net.IP` that the policy calls are written out as the Go library has them.
pub mod Cidr
pub mod Allowed
pub mod Tests
use Prim.Native.Nat.{bit_and}
use mhp.Prelude.{
  ℕ, zero, suc, Bool, true, false, not, ◌&&◌, ◌||◌, Option, none, some, List, [], ◌∷◌, ◌++◌, Bytes,
  length, take, drop, ◌==◌, bytes_eq, if◌then◌else◌,
}

pub record Policy : Type 0 where
  pub allow_loopback : Bool

unfoldable pub new_policy : Policy
new_policy = record { allow_loopback = false }

unfoldable pub allow_loopback_for_test : Policy → Bool → Policy
allow_loopback_for_test p v = record p { allow_loopback = v }

-- `ip[i]`; the policy never reads past the end.
abbrev pub byte_at : Bytes → ℕ → ℕ
byte_at [] i = 0
byte_at (b ∷ bs) zero = b
byte_at (b ∷ bs) (suc i) = byte_at bs i

abbrev pub v4_in_v6_prefix : Bytes
v4_in_v6_prefix = 0 ∷ 0 ∷ 0 ∷ 0 ∷ 0 ∷ 0 ∷ 0 ∷ 0 ∷ 0 ∷ 0 ∷ 255 ∷ 255 ∷ []

-- `IP.To4`.
unfoldable pub to4 : Bytes → Option Bytes
to4 ip =
    if length ip == 4
    then some ip
    else if length ip == 16 && bytes_eq (take 12 ip) v4_in_v6_prefix
    then some (drop 12 ip)
    else none

-- `IP.Equal`, on addresses of 4 and 16 bytes.
unfoldable pub ip_equal : Bytes → Bytes → Bool
ip_equal a b =
    if length a == length b
    then bytes_eq a b
    else if length a == 4 && length b == 16
    then bytes_eq (take 12 b) v4_in_v6_prefix && bytes_eq a (drop 12 b)
    else if length a == 16 && length b == 4
    then bytes_eq (take 12 a) v4_in_v6_prefix && bytes_eq (drop 12 a) b
    else false

abbrev pub ipv6_unspecified : Bytes
ipv6_unspecified = 0 ∷ 0 ∷ 0 ∷ 0 ∷ 0 ∷ 0 ∷ 0 ∷ 0 ∷ 0 ∷ 0 ∷ 0 ∷ 0 ∷ 0 ∷ 0 ∷ 0 ∷ 0 ∷ []

abbrev pub ipv6_loopback : Bytes
ipv6_loopback = 0 ∷ 0 ∷ 0 ∷ 0 ∷ 0 ∷ 0 ∷ 0 ∷ 0 ∷ 0 ∷ 0 ∷ 0 ∷ 0 ∷ 0 ∷ 0 ∷ 0 ∷ 1 ∷ []

abbrev pub ipv4_zero : Bytes
ipv4_zero = v4_in_v6_prefix ++ (0 ∷ 0 ∷ 0 ∷ 0 ∷ [])

-- A method of `net.IP` that asks one question of the 4-byte form, and another of the rest.
abbrev pub by_family : (Bytes → Bool) → (Bytes → Bool) → Option Bytes → Bytes → Bool
by_family v4 v6 none ip = v6 ip
by_family v4 v6 (some ip4) ip = v4 ip4

abbrev pub masked : Bytes → ℕ → ℕ → ℕ
masked ip i mask = bit_and (byte_at ip i) mask

unfoldable pub is_loopback : Bytes → Bool
is_loopback ip = by_family (λ v. byte_at v 0 == 127) (λ v. ip_equal v ipv6_loopback) (to4 ip) ip

unfoldable pub is_private : Bytes → Bool
is_private ip =
    by_family
      (λ v.
        byte_at v 0 == 10
        || (byte_at v 0 == 172 && masked v 1 0xf0 == 16)
        || (byte_at v 0 == 192 && byte_at v 1 == 168))
      (λ v. length v == 16 && masked v 0 0xfe == 0xfc) (to4 ip) ip

unfoldable pub is_link_local_unicast : Bytes → Bool
is_link_local_unicast ip =
    by_family (λ v. byte_at v 0 == 169 && byte_at v 1 == 254)
      (λ v. length v == 16 && byte_at v 0 == 0xfe && masked v 1 0xc0 == 0x80) (to4 ip) ip

unfoldable pub is_link_local_multicast : Bytes → Bool
is_link_local_multicast ip =
    by_family (λ v. byte_at v 0 == 224 && byte_at v 1 == 0 && byte_at v 2 == 0)
      (λ v. length v == 16 && byte_at v 0 == 0xff && masked v 1 0x0f == 0x02) (to4 ip) ip

unfoldable pub is_interface_local_multicast : Bytes → Bool
is_interface_local_multicast ip =
    length ip == 16 && byte_at ip 0 == 0xff && masked ip 1 0x0f == 0x01

unfoldable pub is_multicast : Bytes → Bool
is_multicast ip =
    by_family (λ v. masked v 0 0xf0 == 0xe0) (λ v. length v == 16 && byte_at v 0 == 0xff) (to4 ip)
      ip

unfoldable pub is_unspecified : Bytes → Bool
is_unspecified ip = ip_equal ip ipv4_zero || ip_equal ip ipv6_unspecified

abbrev pub broadcast : Bytes → Bool
broadcast b = byte_at b 0 == 255 && byte_at b 1 == 255 && byte_at b 2 == 255 && byte_at b 3 == 255

-- `ip.To4() != nil && isBroadcastV4(ip)`.
unfoldable pub is_broadcast_v4 : Bytes → Bool
is_broadcast_v4 ip = by_family broadcast (λ v. false) (to4 ip) ip

abbrev pub normalised : Option Bytes → Bytes → Bytes
normalised none ip = ip
normalised (some v4) ip = v4

-- The `switch` on the address in its normal form.
unfoldable pub verdict : Policy → Bytes → Bool
verdict p ip =
    if is_loopback ip
    then p.allow_loopback
    else if is_private ip
    then false
    else if is_link_local_unicast ip
    then false
    else if is_link_local_multicast ip
    then false
    else if is_interface_local_multicast ip
    then false
    else if is_multicast ip
    then false
    else if is_unspecified ip
    then false
    else if is_broadcast_v4 ip
    then false
    else true

unfoldable pub allowed : Policy → Bytes → Bool
unfolding verdict
allowed p ip = verdict p (normalised (to4 ip) ip)
