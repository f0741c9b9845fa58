-- ===== src/Exit/Access/Tests.antt =====
-- Addresses judged, and the theorems at concrete inputs.
use mhp.Prelude.{◌≡◌, refl, inl, true, false, [], ◌∷◌, ◌++◌, Bytes, arith}
use mhp.Exit.Access.{
  new_policy, allow_loopback_for_test, allowed, to4, ip_equal, is_loopback, is_private,
  is_link_local_unicast, is_link_local_multicast, is_interface_local_multicast, is_multicast,
  is_unspecified, is_broadcast_v4, v4_in_v6_prefix,
}
use mhp.Exit.Access.Allowed.{allowed_v4, allowed-v6, allowed_not_public}
use mhp.Prelude.{bytes_eq}

google : allowed new_policy (8 ∷ 8 ∷ 8 ∷ 8 ∷ []) ≡ true
unfolding allowed to4 is_loopback is_private is_link_local_unicast is_link_local_multicast
    is_interface_local_multicast is_multicast is_unspecified is_broadcast_v4 ip_equal bytes_eq
google = refl

loopback_in_tests : allowed (allow_loopback_for_test new_policy true) (127 ∷ 0 ∷ 0 ∷ 1 ∷ []) ≡ true
unfolding allowed to4 is_loopback allow_loopback_for_test
loopback_in_tests = refl

allowed_v4_example :
    (allowed new_policy (10 ∷ 1 ∷ 2 ∷ 3 ∷ []) ≡ false)
    × (allowed new_policy (v4_in_v6_prefix ++ (10 ∷ 1 ∷ 2 ∷ 3 ∷ [])) ≡ false)
allowed_v4_example =
    allowed_v4 new_policy 10 1 2 3 (omega arith) (omega arith) (omega arith) (omega arith)

allowed_not_public_at_input : allowed new_policy (100 ∷ 64 ∷ 0 ∷ 1 ∷ []) ≡ true
allowed_not_public_at_input =
    allowed_not_public 100 64 0 1 (omega arith) (omega arith) (omega arith) (omega arith)
      (inl (refl, omega arith, omega arith))

-- fd00::1
abbrev local_rest : Bytes
local_rest = 0 ∷ 0 ∷ 0 ∷ 0 ∷ 0 ∷ 0 ∷ 0 ∷ 0 ∷ 0 ∷ 0 ∷ 0 ∷ 0 ∷ 0 ∷ 1 ∷ []

allowed-v6_example : allowed new_policy (0xfd ∷ 0 ∷ local_rest) ≡ false
unfolding bytes_eq
allowed-v6_example = allowed-v6 new_policy 0xfd 0 local_rest (omega arith) (omega arith) refl refl
