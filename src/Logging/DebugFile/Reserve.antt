-- ===== src/Logging/DebugFile/Reserve.antt =====
-- Which name is reserved (internal/logging/logging.go).
use mathlib.Core.Path.{subst}
use mhp.Prelude.{
  ℕ, zero, suc, ◌+◌, ◌<◌, ◌≡◌, refl, sym, ap, ◌∙◌, ◌↔◌, inl, inr, Bool, true, false, ◌&&◌,
  Bool-cases, none, Option-cases, ◌∷◌, Bytes, arith,
}
use mhp.Logging.DebugFile.{
  Dir, has_name, open_excl, max_debug_collision_attempts, attempt_name, reserved, attempts,
  open_debug_file,
}

-- The names of `k` attempts from one on exist already.
abbrev pub taken : Dir → Bytes → ℕ → ℕ → Bool
taken dir base attempt zero = true
taken dir base attempt (suc k) =
    has_name (attempt_name base attempt) dir.names && taken dir base (attempt + 1) k

-- The first free name among `left` attempts, with nothing in its way, and the directory with it.
pub record FirstFree (dir : Dir) (base : Bytes) (attempt left : ℕ) (name : Bytes) (after : Dir)
    : Type 0 where
  pub before : ℕ
  pub in_reach : before < left
  pub others_taken : taken dir base attempt before ≡ true
  pub is_name : name ≡ attempt_name base (attempt + before)
  pub is_free : has_name name dir.names ≡ false
  pub unobstructed : dir.obstacle name ≡ none
  pub is_after : after ≡ record dir { names = name ∷ dir.names }

shift :
    (base : Bytes) (attempt k : ℕ)
    → attempt_name base (attempt + 1 + k) ≡ attempt_name base (attempt + suc k)
shift base attempt k = ap (attempt_name base) (omega arith)

reserved_injective : (n m : Bytes) (d e : Dir) → reserved n d ≡ reserved m e → (n ≡ m) × (d ≡ e)
reserved_injective n m d e h = ground (arith, h)

attempts-FirstFree :
    (dir : Dir) (base : Bytes) (attempt left : ℕ) (name : Bytes) (after : Dir)
    → attempts dir base attempt left ≡ reserved name after
    → FirstFree dir base attempt left name after
unfolding attempts open_excl
attempts-FirstFree dir base attempt zero name after h = cc
attempts-FirstFree dir base attempt (suc left) name after h =
    elim (Bool-cases (has_name (attempt_name base attempt) dir.names)) [
      | inl e ↦
          let rest = attempts-FirstFree dir base (attempt + 1) left name after (rw e at h) in
          record {
            before = suc rest.before;
            in_reach = omega (arith, rest.in_reach);
            others_taken = ground (arith, e, rest.others_taken);
            is_name = rest.is_name ∙ shift base attempt rest.before;
            is_free = rest.is_free;
            unobstructed = rest.unobstructed;
            is_after = rest.is_after;
          }
      | inr e ↦ elim (Option-cases (dir.obstacle (attempt_name base attempt))) [
        | inl f ↦
            let here = attempt_name base attempt in
            let (n, d) =
              reserved_injective here name (record dir { names = here ∷ dir.names }) after
                (rw (e, f) at h) in
            record {
              before = 0;
              in_reach = omega arith;
              others_taken = refl;
              is_name = sym n ∙ ap (attempt_name base) (omega arith);
              is_free = ap (λ m. has_name m dir.names) (sym n) ∙ e;
              unobstructed = ap dir.obstacle (sym n) ∙ f;
              is_after = sym d ∙ ap (λ m. record dir { names = m ∷ dir.names }) n;
            }
        | inr f ↦ cc (rw (e, f.1) at h)
      ]
    ]

attempts_at :
    (dir : Dir) (base : Bytes) (attempt left k : ℕ)
    → k < left
    → taken dir base attempt k ≡ true
    → has_name (attempt_name base (attempt + k)) dir.names ≡ false
    → dir.obstacle (attempt_name base (attempt + k)) ≡ none
    → attempts dir base attempt left
      ≡ reserved
          (attempt_name base (attempt + k))
          (record dir { names = attempt_name base (attempt + k) ∷ dir.names })
unfolding attempts open_excl
attempts_at dir base attempt zero k l t f o = absurd (omega arith)
attempts_at dir base attempt (suc left) zero l t f o =
    let same : attempt + 0 ≡ attempt = omega arith in rw (same, rw same at f, rw same at o) refl
attempts_at dir base attempt (suc left) (suc k) l t f o =
    let here : has_name (attempt_name base attempt) dir.names ≡ true = ground (arith, t) in
    let later : taken dir base (attempt + 1) k ≡ true = ground (arith, t) in
    let next = shift base attempt k in
    rw here (
      subst
        (λ m.
          attempts dir base (attempt + 1) left ≡ reserved m (record dir { names = m ∷ dir.names }))
        next
        (attempts_at dir base (attempt + 1) left k (omega arith) later
          (ap (λ m. has_name m dir.names) next ∙ f) (ap dir.obstacle next ∙ o)))

-- A debug file is reserved exactly under the first of the 64 names of a run that does not exist yet,
-- when nothing else keeps it from being created; an existing file is never taken.
pub open_debug_file_iff :
    (dir after : Dir) (base name : Bytes)
    → (open_debug_file dir base ≡ reserved name after)
      ↔ FirstFree dir base 0 max_debug_collision_attempts name after
unfolding open_debug_file
open_debug_file_iff dir after base name = (
  attempts-FirstFree dir base 0 max_debug_collision_attempts name after,
  λ h.
      let at_name =
        attempts_at dir base 0 max_debug_collision_attempts h.before h.in_reach h.others_taken
          (ap (λ m. has_name m dir.names) (sym h.is_name) ∙ h.is_free)
          (ap dir.obstacle (sym h.is_name) ∙ h.unobstructed) in
      at_name
      ∙ ap (λ m. reserved m (record dir { names = m ∷ dir.names })) (sym h.is_name)
      ∙ ap (reserved name) (sym h.is_after),
)
