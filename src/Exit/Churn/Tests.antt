-- ===== src/Exit/Churn/Tests.antt =====
-- The broker over a connector whose first session ends.
use mathlib.Core.List.{
  Sublist, Nodup, Nodup-cons, Nodup-nil, Mem, not-mem-nil, eq-or-mem_of_mem-cons,
}
use mathlib.Core.Logic.Or
use mathlib.Core.HLevel.{⊥_prop}
use mhp.Prelude.{ℕ, ◌≡◌, refl, none, List, [], ◌∷◌, pos, All, arith}
use mhp.Transport.Timing.{default_timing}
use mhp.Transport.Connector.{
  connects, session_ends, start, advance, step, clear_if, after_session, snapshot,
}
use mhp.Exit.Broker.Links
use mhp.Exit.Churn.{Moment, connector_does, looks, seen, connected}
use mhp.Exit.Churn.Served.{served-once}

-- The broker does not see the second session before it has ended.
abbrev churn : List Moment
churn =
    looks none none
    ∷ connector_does (connects 1)
    ∷ looks none none
    ∷ looks none none
    ∷ connector_does (session_ends (pos 5))
    ∷ connector_does (connects 2)
    ∷ connector_does (session_ends (pos 7))
    ∷ connector_does (connects 3)
    ∷ looks none none
    ∷ []

connected-churn : connected default_timing (start default_timing) churn ≡ 1 ∷ 2 ∷ 3 ∷ []
unfolding connected step advance start clear_if after_session
connected-churn = refl

served-churn :
    (Links.run none (seen default_timing (start default_timing) churn)).links ≡ 1 ∷ 3 ∷ []
unfolding seen step advance start clear_if after_session snapshot Links.run
served-churn = refl

not_among : (a : ℕ) (xs : List ℕ) → All (λ x. ¬ (a ≡ x)) xs → ¬ Mem a xs
not_among a [] h m = not-mem-nil m
not_among a (x ∷ xs) (n, ns) m = Or.elim ⊥_prop (eq-or-mem_of_mem-cons m) n (not_among a xs ns)

after_all : (a : ℕ) (xs : List ℕ) → All (λ x. ¬ (a ≡ x)) xs → Nodup xs → Nodup (a ∷ xs)
after_all a xs h n = (Nodup-cons {a = a} {l = xs}).1 (not_among a xs h, n)

churn-Nodup : Nodup (connected default_timing (start default_timing) churn)
churn-Nodup = rw connected-churn (
    after_all 1 (2 ∷ 3 ∷ []) (omega arith, (omega arith, tt))
      (after_all 2 (3 ∷ []) (omega arith, tt) (after_all 3 [] tt Nodup-nil)))

served-once_example : Sublist {A = ℕ} (1 ∷ 3 ∷ []) (1 ∷ 2 ∷ 3 ∷ []) × Nodup {A = ℕ} (1 ∷ 3 ∷ [])
unfolding seen connected step advance start clear_if after_session snapshot Links.run
served-once_example = served-once default_timing churn churn-Nodup
