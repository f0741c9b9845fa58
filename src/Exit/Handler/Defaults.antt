-- ===== src/Exit/Handler/Defaults.antt =====
-- The options of the handler (internal/exit/handler.go).
use mhp.Prelude.{ℕ, ◌≡◌, refl, ℤ, pos, negsuc, ltℤ, leℤ, ltb, true, arith, if◌then◌else◌}
use mhp.Exit.Handler.{Options, defaults}

abbrev or_default : ℤ → ℕ → ℤ
or_default x n = if leℤ x (pos 0) then pos n else x

or_default-positive : (x : ℤ) (n : ℕ) → ltb 0 n ≡ true → ltℤ (pos 0) (or_default x n) ≡ true
or_default-positive (pos x) n h = ground (arith, h)
or_default-positive (negsuc x) n h = ground (arith, h)

or_default-or_default :
    (x : ℤ) (n : ℕ) → ltb 0 n ≡ true → or_default (or_default x n) n ≡ or_default x n
or_default-or_default (pos x) n h = ground (arith, h)
or_default-or_default (negsuc x) n h = ground (arith, h)

abbrev or_bound : ℤ → ℤ
or_bound x = if ltℤ x (pos 1) then pos 16 else x

or_bound-positive : (x : ℤ) → ltℤ (pos 0) (or_bound x) ≡ true
or_bound-positive (pos x) = ground arith
or_bound-positive (negsuc x) = ground arith

or_bound-or_bound : (x : ℤ) → or_bound (or_bound x) ≡ or_bound x
or_bound-or_bound (pos x) = ground arith
or_bound-or_bound (negsuc x) = ground arith

-- The defaults leave no option that is not positive and keep every positive one, also when they are
-- applied again.
pub defaults-defaults :
    (o : Options)
    → (defaults (defaults o) ≡ defaults o)
      × (ltℤ (pos 0) (defaults o).setup_timeout ≡ true)
      × (ltℤ (pos 0) (defaults o).dial_timeout ≡ true)
      × (ltℤ (pos 0) (defaults o).resolve_timeout ≡ true)
      × (ltℤ (pos 0) (defaults o).resolve_bound ≡ true)
unfolding defaults
defaults-defaults o = (
  rw
      (
        or_default-or_default o.setup_timeout 15_000_000_000 refl,
        or_default-or_default o.dial_timeout 10_000_000_000 refl,
        or_default-or_default o.resolve_timeout 5_000_000_000 refl,
        or_bound-or_bound o.resolve_bound,
      )
      refl,
  or_default-positive o.setup_timeout 15_000_000_000 refl,
  or_default-positive o.dial_timeout 10_000_000_000 refl,
  or_default-positive o.resolve_timeout 5_000_000_000 refl,
  or_bound-positive o.resolve_bound,
)
