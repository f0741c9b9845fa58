-- ===== src/Transport/Timing/Backoff.antt =====
-- The schedule and its delays (internal/transport/timing.go and authenticator.go).
use mathlib.Core.List.{Perm, Permᴰ}
use mathlib.Core.Logic.{∥∥₁_elim}
use mhp.Prelude.{
  ℕ, zero, suc, ◌+◌, ◌*◌, ◌^◌, ◌≤◌, ◌<◌, ◌≡◌, refl, ◌∙◌, sym, ap, Bool, true, false, List, [], ◌∷◌,
  ℤ, pos, negsuc, ltℤ, leb, leℤ, double64_pos, add64_pos, arith, All, Bool-cases, inl, inr, not,
  ◌&&◌, if◌then◌else◌,
}
use Prim.Native.Nat.{min}
use mathlib.Core.Bool.{Bool-set}
use native.Mathlib.Nat.{pow-suc}
use mhp.Errors.{Result, ok, err, sentinel, invalid_timing}
use mhp.Transport.Timing.{
  Timing, durations, and_then, check_relations, require_positive, validate, grow, backoff,
}

abbrev pub IsPositive : ℤ → Type 0
IsPositive d = leℤ d (pos 0) ≡ false

require_positive_ok : (ds : List ℤ) → require_positive ds ≡ ok tt → All IsPositive ds
unfolding require_positive
require_positive_ok [] h = tt
require_positive_ok (d ∷ ds) h = elim (Bool-cases (leℤ d (pos 0))) [
  | inl e ↦ cc (rw e at h)
  | inr e ↦ (e, require_positive_ok ds (rw e at h))
]

pub pow_two_pos : (n : ℕ) → 0 < 2 ^ n
pow_two_pos zero = omega arith
pow_two_pos (suc n) = rw pow-suc (omega (arith, pow_two_pos n))

pub floor-le : (floor p : ℕ) → 0 < p → floor ≤ floor * p
floor-le floor p h = grind arith

pub double-pow : (floor n : ℕ) → floor * 2 ^ suc n ≡ floor * 2 * 2 ^ n
double-pow floor n = rw pow-suc (omega arith)

-- The loop in closed form: the floor doubled `n` times, cut at the ceiling.
grow-eq :
    (n floor ceiling : ℕ)
    → ceiling < 2 ^ 62
    → floor ≤ ceiling
    → grow n (pos ceiling) (pos floor) ≡ pos (min (floor * 2 ^ n) ceiling)
unfolding grow
grow-eq zero floor ceiling h k = ap pos (omega arith)
grow-eq (suc n) floor ceiling h k = elim (Bool-cases (leb ceiling (floor * 2))) [
  | inl e ↦
      let reached : ceiling ≤ floor * 2 = ground arith in
      rw (double64_pos floor (omega arith), e)
        (ap pos (omega (arith, double-pow floor n, floor-le (floor * 2) (2 ^ n) (pow_two_pos n))))
  | inr e ↦
      let below : floor * 2 < ceiling = ground arith in
      rw (double64_pos floor (omega arith), e)
        (grow-eq n (floor * 2) ceiling h (omega arith)
          ∙ ap (λ x. pos (min x ceiling)) (sym (double-pow floor n)))
]

-- The delay before attempt n + 1 is the floor doubled n times, cut at the ceiling, plus the jitter,
-- cut again. (No product of it leaves int64 as long as the ceiling is below 2^62 ns, 146 years.)
pub backoff-eq :
    (t : Timing) (n floor ceiling jitter : ℕ)
    → t.min_backoff ≡ pos floor
    → t.max_backoff ≡ pos ceiling
    → floor ≤ ceiling
    → ceiling < 2 ^ 62
    → jitter ≤ floor
    → backoff t n (pos jitter) ≡ pos (min (min (floor * 2 ^ n) ceiling + jitter) ceiling)
unfolding backoff
backoff-eq t n floor ceiling jitter e f h k l =
    rw
      (
        e,
        f,
        grow-eq n floor ceiling k h,
        add64_pos (min (floor * 2 ^ n) ceiling) jitter (omega arith),
      )
      (ground arith)

abbrev all_positive : List ℤ → Bool
all_positive [] = true
all_positive (d ∷ ds) = not (leℤ d (pos 0)) && all_positive ds

require_positive-eq :
    (ds : List ℤ)
    → require_positive ds ≡ (if all_positive ds then ok tt else err (sentinel invalid_timing))
unfolding require_positive
require_positive-eq [] = refl
require_positive-eq (d ∷ ds) = ground (arith, require_positive-eq ds)

all_positive-permᴰ : {xs ys : List ℤ} → Permᴰ xs ys → all_positive xs ≡ all_positive ys
all_positive-permᴰ Permᴰ.nil = refl
all_positive-permᴰ (Permᴰ.cons {l₁ = xs} {l₂ = ys} e p) = rw e (ap (◌&&◌ _) (all_positive-permᴰ p))
all_positive-permᴰ (Permᴰ.swap e f) = rw (e, f) (ground arith)
all_positive-permᴰ (Permᴰ.trans p q) = all_positive-permᴰ p ∙ all_positive-permᴰ q

all_positive-perm : (xs ys : List ℤ) → Perm xs ys → all_positive xs ≡ all_positive ys
all_positive-perm xs ys p = ∥∥₁_elim p (Bool-set _ _) all_positive-permᴰ

-- Whatever order Go visits the map of durations in, the verdict on a schedule is the same.
pub validate_order :
    (order : List ℤ → List ℤ) (t : Timing)
    → ((ds : List ℤ) → Perm (order ds) ds)
    → validate order t ≡ validate (λ ds. ds) t
unfolding validate
validate_order order t h =
    ap (λ r. and_then r (check_relations t))
      (require_positive-eq (order (durations t))
        ∙ ap (λ b. if b then ok tt else err (sentinel invalid_timing))
            (all_positive-perm (order (durations t)) (durations t) (h (durations t)))
        ∙ sym (require_positive-eq (durations t)))

positive_pos : (d : ℤ) → IsPositive d → (m : ℕ) × (d ≡ pos m)
positive_pos (pos m) h = (m, refl)
positive_pos (negsuc m) h = cc

-- What a schedule that `validate` accepts has in common, as far as the delays need it.
record Bounds (t : Timing) : Type 0 where
  floor : ℕ
  ceiling : ℕ
  is_floor : t.min_backoff ≡ pos floor
  is_ceiling : t.max_backoff ≡ pos ceiling
  ordered : floor ≤ ceiling

ordered_pos : (a b : ℕ) → ltℤ (pos b) (pos a) ≡ false → a ≤ b
ordered_pos a b h = ground arith

le_pos : (a b : ℕ) → leℤ (pos a) (pos b) ≡ true → a ≤ b
le_pos a b h = ground arith

lt_pos : (a b : ℕ) → ltℤ (pos a) (pos b) ≡ true → a < b
lt_pos a b h = ground arith

and_then_ok : (r s : Result (Unit {0})) → and_then r s ≡ ok tt → (r ≡ ok tt) × (s ≡ ok tt)
and_then_ok (ok u) s h = (refl, h)
and_then_ok (err e) s h = cc

check_relations_ordered :
    (t : Timing) → check_relations t ≡ ok tt → ltℤ t.max_backoff t.min_backoff ≡ false
check_relations_ordered t h = elim (Bool-cases (ltℤ t.max_backoff t.min_backoff)) [
  | inl e ↦ cc (rw e at h)
  | inr e ↦ e
]

accepted : (t : Timing) → validate (λ ds. ds) t ≡ ok tt → Bounds t
unfolding validate
accepted t h =
    let (positive, related) = and_then_ok (require_positive (durations t)) (check_relations t) h in
    let ps = require_positive_ok (durations t) positive in
    let (floor, e) = positive_pos t.min_backoff ps.1.1.1.1.1.1.1.0 in
    let (ceiling, f) = positive_pos t.max_backoff ps.1.1.1.1.1.1.1.1.0 in
    record {
      floor = floor;
      ceiling = ceiling;
      is_floor = e;
      is_ceiling = f;
      ordered = ordered_pos floor ceiling (rw (e, f) at (check_relations_ordered t related));
    }

-- Every delay of an accepted schedule, with a jitter of at most the floor, lies between the floor
-- and the ceiling, at every attempt, as long as the ceiling is below 2^62 ns.
pub backoff_bounds :
    (order : List ℤ → List ℤ) (t : Timing) (n jitter : ℕ)
    → ((ds : List ℤ) → Perm (order ds) ds)
    → validate order t ≡ ok tt
    → ltℤ t.max_backoff (pos (2 ^ 62)) ≡ true
    → leℤ (pos jitter) t.min_backoff ≡ true
    → (leℤ t.min_backoff (backoff t n (pos jitter)) ≡ true)
      × (leℤ (backoff t n (pos jitter)) t.max_backoff ≡ true)
backoff_bounds order t n jitter perm v small j =
    let b = accepted t (sym (validate_order order t perm) ∙ v) in
    let lo : jitter ≤ b.floor = le_pos jitter b.floor (rw b.is_floor at j) in
    let hi : b.ceiling < 2 ^ 62 = lt_pos b.ceiling (2 ^ 62) (rw b.is_ceiling at small) in
    rw
      (
        backoff-eq t n b.floor b.ceiling jitter b.is_floor b.is_ceiling b.ordered hi lo,
        b.is_floor,
        b.is_ceiling,
      )
      (ground (arith, floor-le b.floor (2 ^ n) (pow_two_pos n), b.ordered))
