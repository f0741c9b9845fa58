-- ===== src/Exit/Access/Cidr.antt =====
-- The policy against the address blocks that it stands for (internal/exit/access.go).
use Prim.Native.Nat.{bit_and}
use mhp.Prelude.{
  ℕ, zero, suc, ◌+◌, ◌-◌, ◌*◌, ◌/◌, ◌^◌, ◌<◌, ◌≡◌, refl, Bool, true, false, not, ◌&&◌, ◌||◌, [],
  ◌∷◌, Bytes, ◌==◌, leb, bytes_eq, arith, if◌then◌else◌,
}
use mhp.Exit.Access.{
  Policy, to4, ip_equal, is_loopback, is_private, is_link_local_unicast, is_link_local_multicast,
  is_interface_local_multicast, is_multicast, is_unspecified, is_broadcast_v4, verdict,
}

abbrev same : Bool → Bool → Bool
same true b = b
same false b = not b

-- Two tests of a byte agree on the values from 0 up to a bound, which evaluation decides.
agree : (test table : ℕ → Bool) → ℕ → Bool
agree test table zero = true
agree test table (suc bound) =
    let rest = agree test table bound in if same (test bound) (table bound) then rest else false

agree_lem :
    (test table : ℕ → Bool) (bound byte : ℕ)
    → agree test table bound ≡ true
    → byte < bound
    → test byte ≡ table byte
unfolding agree
agree_lem test table zero byte e h = absurd (omega arith)
agree_lem test table (suc bound) byte e h = ground (arith, agree_lem test table bound byte)

unfoldable pub within : ℕ → ℕ → ℕ → Bool
within lo hi x = leb lo x && leb x hi

masked_range :
    (mask value lo hi x : ℕ)
    → agree (λ y. bit_and y mask == value) (within lo hi) 256 ≡ true
    → x < 256
    → (bit_and x mask == value) ≡ within lo hi x
masked_range mask value lo hi x table h =
    agree_lem (λ y. bit_and y mask == value) (within lo hi) 256 x table h

private_range : (x : ℕ) → x < 256 → (bit_and x 0xf0 == 16) ≡ within 16 31 x
unfolding agree within
private_range x h = masked_range 0xf0 16 16 31 x refl h

multicast_range : (x : ℕ) → x < 256 → (bit_and x 0xf0 == 0xe0) ≡ within 224 239 x
unfolding agree within
multicast_range x h = masked_range 0xf0 0xe0 224 239 x refl h

pub ula_range : (x : ℕ) → x < 256 → (bit_and x 0xfe == 0xfc) ≡ within 252 253 x
unfolding agree within
ula_range x h = masked_range 0xfe 0xfc 252 253 x refl h

pub link_local_range : (x : ℕ) → x < 256 → (bit_and x 0xc0 == 0x80) ≡ within 128 191 x
unfolding agree within
link_local_range x h = masked_range 0xc0 0x80 128 191 x refl h

-- The address as a number, and a block of addresses by its base and the bits that are fixed.
abbrev pub address : ℕ → ℕ → ℕ → ℕ → ℕ
address a b c d = a * 2 ^ 24 + b * 2 ^ 16 + c * 2 ^ 8 + d

abbrev pub in_block : ℕ → ℕ → ℕ → Bool
in_block base len x = x / 2 ^ (32 - len) == base / 2 ^ (32 - len)

-- An address in one of 10.0.0.0/8, 172.16.0.0/12, 192.168.0.0/16, 169.254.0.0/16, 224.0.0.0/4,
-- 0.0.0.0/32 and 255.255.255.255/32.
abbrev pub refused_v4 : ℕ → Bool
refused_v4 x =
    in_block (address 10 0 0 0) 8 x
    || in_block (address 172 16 0 0) 12 x
    || in_block (address 192 168 0 0) 16 x
    || in_block (address 169 254 0 0) 16 x
    || in_block (address 224 0 0 0) 4 x
    || in_block (address 0 0 0 0) 32 x
    || in_block (address 255 255 255 255) 32 x

module _ (a b c d : ℕ) (ha : a < 256) (hb : b < 256) (hc : c < 256) (hd : d < 256) where
  pub block_8 : (k : ℕ) → k < 256 → in_block (address k 0 0 0) 8 (address a b c d) ≡ (a == k)
  block_8 k h = ground arith

  block_16 :
      (k l : ℕ) → l < 256 → in_block (address k l 0 0) 16 (address a b c d) ≡ (a == k && b == l)
  block_16 k l h = ground arith

  block_private : in_block (address 172 16 0 0) 12 (address a b c d) ≡ (a == 172 && within 16 31 b)
  unfolding within
  block_private = ground arith

  block_multicast : in_block (address 224 0 0 0) 4 (address a b c d) ≡ within 224 239 a
  unfolding within
  block_multicast = ground arith

  block_32 :
      (k l m n : ℕ)
      → l < 256
      → m < 256
      → n < 256
      → in_block (address k l m n) 32 (address a b c d) ≡ (a == k && b == l && c == m && d == n)
  block_32 k l m n hl hm hn = ground arith

  abbrev pub v4 : Bytes
  v4 = a ∷ b ∷ c ∷ d ∷ []

  loopback_v4 : is_loopback v4 ≡ (a == 127)
  unfolding is_loopback to4
  loopback_v4 = refl

  private_v4 : is_private v4 ≡ (a == 10 || (a == 172 && within 16 31 b) || (a == 192 && b == 168))
  unfolding is_private to4
  private_v4 = rw (private_range b hb) refl

  link_local_v4 : is_link_local_unicast v4 ≡ (a == 169 && b == 254)
  unfolding is_link_local_unicast to4
  link_local_v4 = refl

  multicast_v4 : is_multicast v4 ≡ within 224 239 a
  unfolding is_multicast to4
  multicast_v4 = multicast_range a ha

  link_local_multicast_v4 : is_link_local_multicast v4 ≡ (a == 224 && b == 0 && c == 0)
  unfolding is_link_local_multicast to4
  link_local_multicast_v4 = refl

  interface_local_v4 : is_interface_local_multicast v4 ≡ false
  unfolding is_interface_local_multicast
  interface_local_v4 = refl

  unspecified_v4 : is_unspecified v4 ≡ (a == 0 && b == 0 && c == 0 && d == 0)
  unfolding is_unspecified ip_equal bytes_eq
  unspecified_v4 = ground arith

  broadcast_v4 : is_broadcast_v4 v4 ≡ (a == 255 && b == 255 && c == 255 && d == 255)
  unfolding is_broadcast_v4 to4
  broadcast_v4 = refl

  abbrev pub refused_bytes : Bool
  refused_bytes =
      a == 10
      || (a == 172 && within 16 31 b)
      || (a == 192 && b == 168)
      || (a == 169 && b == 254)
      || within 224 239 a
      || (a == 0 && b == 0 && c == 0 && d == 0)
      || (a == 255 && b == 255 && c == 255 && d == 255)

  pub refused_bytes-eq : refused_v4 (address a b c d) ≡ refused_bytes
  refused_bytes-eq =
      rw
        (
          block_8 10 (omega arith),
          block_private,
          block_16 192 168 (omega arith),
          block_16 169 254 (omega arith),
          block_multicast,
          block_32 0 0 0 0 (omega arith) (omega arith) (omega arith),
          block_32 255 255 255 255 (omega arith) (omega arith) (omega arith),
        )
        refl

  pub verdict-v4 :
      (p : Policy) → verdict p v4 ≡ (if a == 127 then p.allow_loopback else not refused_bytes)
  unfolding verdict within
  verdict-v4 p =
      rw
        (
          loopback_v4, private_v4, link_local_v4, multicast_v4, link_local_multicast_v4,
          interface_local_v4, unspecified_v4, broadcast_v4,
        )
        (ground arith)
