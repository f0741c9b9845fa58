-- ===== src/Config.antt =====
-- internal/config/config.go.
pub mod Space
pub mod Load
use mhp.Prelude.{Bytes, Bool, true, false, bytes_eq, bytes_eq_iff, ◌≡◌, ◌↔◌, refl, arith}

-- `type Mode string`. `other` stands for every string that is none of the three constants.
pub data Mode : Type 0 where
  mode_relay mode_exit mode_proxy : Mode
  other : Bytes → Mode

-- `a == b` on modes.
unfoldable pub mode_eq : Mode → Mode → Bool
mode_eq mode_relay mode_relay = true
mode_eq mode_exit mode_exit = true
mode_eq mode_proxy mode_proxy = true
mode_eq (other a) (other b) = bytes_eq a b
mode_eq _ _ = false

pub mode_eq_iff : (a b : Mode) → (mode_eq a b ≡ true) ↔ (a ≡ b)
unfolding mode_eq
mode_eq_iff mode_relay b = ground arith
mode_eq_iff mode_exit b = ground arith
mode_eq_iff mode_proxy b = ground arith
mode_eq_iff (other a) (other b) = ground (arith, bytes_eq_iff a b)
mode_eq_iff (other a) b = ground arith

pub mode_eq_refl : (a : Mode) → mode_eq a a ≡ true
mode_eq_refl a = (mode_eq_iff a a).1 refl
