-- ===== src/Config/Load/Fields.antt =====
-- Required fields in any order, and results in sequence (internal/config/config.go).
use Prim.Native.String.{String}
use mathlib.Core.List.{Perm, Permᴰ}
use mathlib.Core.Logic.{∥∥₁_elim}
use mathlib.Core.Bool.{Bool-set}
use mhp.Prelude.{
  ◌≡◌, refl, ◌∙◌, ap, ◌↔◌, Bool, true, not, ◌&&◌, List, [], ◌∷◌, Bytes, is_empty, arith,
}
use mhp.Config.{Mode}
use mhp.Config.Load.{Loaded, loaded, failed, ◌>>=◌, require}

unfoldable pub all_present : List (String × Bytes) → Bool
all_present [] = true
all_present ((field, v) ∷ fields) = not (is_empty v) && all_present fields

pub require_loaded :
    (mode : Mode) (fields : List (String × Bytes))
    → (require mode fields ≡ loaded tt) ↔ (all_present fields ≡ true)
unfolding require all_present
require_loaded mode [] = ground arith
require_loaded mode ((field, v) ∷ fields) = ground (arith, require_loaded mode fields)

all_present-permᴰ : {xs ys : List (String × Bytes)} → Permᴰ xs ys → all_present xs ≡ all_present ys
unfolding all_present
all_present-permᴰ Permᴰ.nil = refl
all_present-permᴰ (Permᴰ.cons e p) = rw e (ap (◌&&◌ _) (all_present-permᴰ p))
all_present-permᴰ (Permᴰ.swap e f) = rw (e, f) (ground arith)
all_present-permᴰ (Permᴰ.trans p q) = all_present-permᴰ p ∙ all_present-permᴰ q

pub all_present-perm :
    (xs ys : List (String × Bytes)) → Perm xs ys → all_present xs ≡ all_present ys
all_present-perm xs ys p = ∥∥₁_elim p (Bool-set _ _) all_present-permᴰ

pub bind_loaded :
    {A B : Type 0} (m : Loaded A) (f : A → Loaded B) (b : B)
    → (m >>= f) ≡ loaded b
    → (a : A) × (m ≡ loaded a) × (f a ≡ loaded b)
bind_loaded (loaded a) f b h = (a, refl, h)
bind_loaded (failed e) f b h = cc

pub loaded_injective : {A : Type 0} (a b : A) → loaded a ≡ loaded b → a ≡ b
loaded_injective a b h = cc

pub both_loaded :
    {A : Type 0} (r : Loaded (Unit {0})) (s : Loaded A) (a : A)
    → ((r >>= (λ u. s)) ≡ loaded a) ↔ ((r ≡ loaded tt) × (s ≡ loaded a))
both_loaded (loaded u) s a = (λ h. (refl, h), λ h. h.1)
both_loaded (failed e) s a = (λ h. cc h, λ h. cc (h.0))
