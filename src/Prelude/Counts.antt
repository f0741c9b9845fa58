-- ===== src/Prelude/Counts.antt =====
-- How often a number occurs in a list: what accounts for connections and sessions by their numbers.
use Prim.Native.Nat.{ℕ, zero, suc, ◌+◌}
use mathlib.Core.Path.{◌≡◌, refl}
use mathlib.Core.Option.{some}
use mathlib.Core.List.{List, [], ◌∷◌, ◌++◌}
use native.Mathlib.Omega.{arith}
use mhp.Prelude.Tests.{◌==◌, if◌then◌else◌}
use mhp.Prelude.Lists.{get_elem?, erase_idx, length}

abbrev pub times : ℕ → List ℕ → ℕ
times x [] = 0
times x (y ∷ ys) = let rest = times x ys in if y == x then suc rest else rest

pub times-append : (x : ℕ) (xs ys : List ℕ) → times x (xs ++ ys) ≡ times x xs + times x ys
times-append x [] ys = omega arith
times-append x (z ∷ xs) ys = ground (arith, times-append x xs ys)

pub times_self : (y : ℕ) → times y (y ∷ []) ≡ 1
times_self y = ground arith

pub all_zero : (xs : List ℕ) → ((x : ℕ) → times x xs ≡ 0) → xs ≡ []
all_zero [] h = refl
all_zero (y ∷ xs) h = absurd (ground (arith, h y))

-- An element and the others.
pub times-erase_idx :
    (x y n : ℕ) (xs : List ℕ)
    → get_elem? xs n ≡ some y
    → times x xs ≡ times x (y ∷ []) + times x (erase_idx xs n)
times-erase_idx x y n [] h = cc
times-erase_idx x y zero (z ∷ xs) h = ground arith
times-erase_idx x y (suc n) (z ∷ xs) h = ground (arith, times-erase_idx x y n xs h)

pub length-erase_idx :
    (n x : ℕ) (xs : List ℕ) → get_elem? xs n ≡ some x → length xs ≡ suc (length (erase_idx xs n))
length-erase_idx n x [] h = cc
length-erase_idx zero x (y ∷ xs) h = refl
length-erase_idx (suc n) x (y ∷ xs) h = omega (arith, length-erase_idx n x xs h)
