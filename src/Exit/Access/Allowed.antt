-- ===== src/Exit/Access/Allowed.antt =====
-- Which addresses the policy lets the exit dial (internal/exit/access.go).
use Prim.Native.Nat.{bit_and}
use mhp.Prelude.{
  ℕ, ◌+◌, ◌≤◌, ◌<◌, ◌≡◌, refl, sym, ap, ◌∙◌, ◌⊎◌, true, false, not, ◌&&◌, ◌||◌, none, [], ◌∷◌, ◌++◌,
  Bytes, length, ◌==◌, leb, bytes_eq, bytes_eq_iff, Bool-cases, inl, inr, arith, if◌then◌else◌,
  take,
}
use mhp.Exit.Access.{
  Policy, new_policy, to4, ip_equal, is_loopback, is_private, is_link_local_unicast,
  is_link_local_multicast, is_interface_local_multicast, is_multicast, is_unspecified,
  is_broadcast_v4, verdict, allowed, v4_in_v6_prefix, ipv6_loopback, ipv6_unspecified, ipv4_zero,
}
use mhp.Exit.Access.Cidr.{
  address, in_block, refused_v4, refused_bytes-eq, verdict-v4, block_8, ula_range, link_local_range,
  within,
}

-- The exit dials an IPv4 address, in its 4-byte form and in the IPv4-mapped IPv6 form alike,
-- exactly when it lies in none of the refused blocks; for 127.0.0.0/8 the loopback option decides.
pub allowed_v4 :
    (p : Policy) (a b c d : ℕ)
    → a < 256
    → b < 256
    → c < 256
    → d < 256
    → let expected =
        if in_block (address 127 0 0 0) 8 (address a b c d)
        then p.allow_loopback
        else not (refused_v4 (address a b c d)) in
      (allowed p (a ∷ b ∷ c ∷ d ∷ []) ≡ expected)
      × (allowed p (v4_in_v6_prefix ++ (a ∷ b ∷ c ∷ d ∷ [])) ≡ expected)
unfolding allowed to4 bytes_eq
allowed_v4 p a b c d ha hb hc hd = (judged, judged)
  where
    judged : verdict p (a ∷ b ∷ c ∷ d ∷ []) ≡ (
        if in_block (address 127 0 0 0) 8 (address a b c d)
        then p.allow_loopback
        else not (refused_v4 (address a b c d)))
    judged =
        rw
          (
            verdict-v4 a b c d ha hb hc hd p,
            block_8 a b c d ha hb hc hd 127 (omega arith),
            refused_bytes-eq a b c d ha hb hc hd,
          )
          refl

-- The shipped policy dials addresses that are not publicly routable: every one of the shared address
-- space 100.64.0.0/10, of 0.0.0.0/8 but 0.0.0.0 itself, and of 240.0.0.0/4 but the broadcast address.
pub allowed_not_public :
    (a b c d : ℕ)
    → a < 256
    → b < 256
    → c < 256
    → d < 256
    → ((a ≡ 100) × (64 ≤ b) × (b ≤ 127))
      ⊎ ((a ≡ 0) × (0 < b + c + d))
      ⊎ ((240 ≤ a) × (a + b + c + d < 1020))
    → allowed new_policy (a ∷ b ∷ c ∷ d ∷ []) ≡ true
unfolding new_policy within
allowed_not_public a b c d ha hb hc hd h =
    rw
      (
        (allowed_v4 new_policy a b c d ha hb hc hd).0,
        block_8 a b c d ha hb hc hd 127 (omega arith),
        refused_bytes-eq a b c d ha hb hc hd,
      )
      (ground arith)

zero_is_mapped : bytes_eq (take 12 ipv4_zero) v4_in_v6_prefix ≡ true
unfolding bytes_eq
zero_is_mapped = refl

module _ (p : Policy) (x y : ℕ) (rest : Bytes) (hx : x < 256) (hy : y < 256) (h : length rest ≡ 14)
    (proper : bytes_eq (take 12 (x ∷ y ∷ rest)) v4_in_v6_prefix ≡ false) where
  abbrev v6 : Bytes
  v6 = x ∷ y ∷ rest

  length-v6 : length v6 ≡ 16
  length-v6 = omega (arith, h)

  to4-v6 : to4 v6 ≡ none
  unfolding to4
  to4-v6 = rw (length-v6, proper) refl

  loopback_v6 : is_loopback v6 ≡ bytes_eq v6 ipv6_loopback
  unfolding is_loopback ip_equal
  loopback_v6 = rw (to4-v6, length-v6) refl

  private_v6 : is_private v6 ≡ within 252 253 x
  unfolding is_private
  private_v6 = rw (to4-v6, length-v6) (ula_range x hx)

  link_local_v6 : is_link_local_unicast v6 ≡ (x == 254 && within 128 191 y)
  unfolding is_link_local_unicast
  link_local_v6 = rw (to4-v6, length-v6) (ap (◌&&◌ (x == 254)) (link_local_range y hy))

  multicast_v6 : is_multicast v6 ≡ (x == 255)
  unfolding is_multicast
  multicast_v6 = rw (to4-v6, length-v6) refl

  link_local_multicast_v6 : is_link_local_multicast v6 ≡ (x == 255 && bit_and y 0x0f == 0x02)
  unfolding is_link_local_multicast
  link_local_multicast_v6 = rw (to4-v6, length-v6) refl

  interface_local_v6 : is_interface_local_multicast v6 ≡ (x == 255 && bit_and y 0x0f == 0x01)
  unfolding is_interface_local_multicast
  interface_local_v6 = rw length-v6 refl

  broadcast_v6 : is_broadcast_v4 v6 ≡ false
  unfolding is_broadcast_v4
  broadcast_v6 = rw to4-v6 refl

  not_zero_v4 : bytes_eq v6 ipv4_zero ≡ false
  not_zero_v4 = elim (Bool-cases (bytes_eq v6 ipv4_zero)) [
    | inl e ↦
        let same = (bytes_eq_iff v6 ipv4_zero).0 e in
        cc (sym proper ∙ ap (λ q. bytes_eq (take 12 q) v4_in_v6_prefix) same ∙ zero_is_mapped)
    | inr e ↦ e
  ]

  unspecified_v6 : is_unspecified v6 ≡ bytes_eq v6 ipv6_unspecified
  unfolding is_unspecified ip_equal
  unspecified_v6 = rw (length-v6, not_zero_v4) refl

  -- An IPv6 address that hides no IPv4 address is dialled exactly when it is not `::`, not in
  -- fc00::/7, fe80::/10 or ff00::/8, and for `::1` as the loopback option says.
  pub allowed-v6 : allowed p v6 ≡ (
      if bytes_eq v6 ipv6_loopback
      then p.allow_loopback
      else not (
          bytes_eq v6 ipv6_unspecified
          || (leb 252 x && leb x 253)
          || (x == 254 && leb 128 y && leb y 191)
          || x == 255))
  unfolding allowed verdict within
  allowed-v6 =
      rw
        (
          to4-v6, loopback_v6, private_v6, link_local_v6, link_local_multicast_v6,
          interface_local_v6, multicast_v6, unspecified_v6, broadcast_v6,
        )
        (ground arith)
