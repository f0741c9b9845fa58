-- ===== src/Stream/Copy/Pairs/Clean.antt =====
-- What a nil result of `Duplex.Run` says of its workers (internal/stream/duplex.go).
use mathlib.Core.Path.{subst}
use mathlib.Core.Option.{some-injective}
use mhp.Prelude.{◌≡◌, refl, true, false, Option, none, some, ap, List, [], ◌∷◌}
use mhp.Errors.{Error}
use mhp.Stream.Duplex.{Conn, Returned, loop, force_close, Finished, finish}
use mhp.Stream.Copy.Pairs.{Moment, up_ends, down_ends, ctx_ends, timer_fires, turns}

-- A nil result carries the property.
abbrev pub Fine : Type 0 → Option Error → Type 0
Fine P none = P
Fine P (some e) = Unit

abbrev pub WhenReturned : Type 0 → Option Returned → Type 0
WhenReturned P none = Unit
WhenReturned P (some r) = Fine P r.error

up_sent :
    (b : Option Error) (received : List (Option Error)) (ms : List Moment)
    → WhenReturned (b ≡ none) (loop 1 true received (turns true false none b ms))
unfolding loop
up_sent b received [] = tt
up_sent b received (up_ends ∷ ms) = up_sent b received ms
up_sent none received (down_ends ∷ ms) = refl
up_sent (some e) received (down_ends ∷ ms) = tt
up_sent b received (ctx_ends e ∷ ms) = tt
up_sent b received (timer_fires ∷ ms) = tt

down_sent :
    (a : Option Error) (received : List (Option Error)) (ms : List Moment)
    → WhenReturned (a ≡ none) (loop 1 true received (turns false true a none ms))
unfolding loop
down_sent a received [] = tt
down_sent none received (up_ends ∷ ms) = refl
down_sent (some e) received (up_ends ∷ ms) = tt
down_sent a received (down_ends ∷ ms) = down_sent a received ms
down_sent a received (ctx_ends e ∷ ms) = tt
down_sent a received (timer_fires ∷ ms) = tt

pub Fine-map : (P Q : Type 0) (e : Option Error) → (P → Q) → Fine P e → Fine Q e
Fine-map P Q none f h = f h
Fine-map P Q (some e) f h = tt

WhenReturned-map :
    (P Q : Type 0) (r : Option Returned) → (P → Q) → WhenReturned P r → WhenReturned Q r
WhenReturned-map P Q none f h = tt
WhenReturned-map P Q (some r) f h = Fine-map P Q r.error f h

pub none_sent :
    (a b : Option Error) (ms : List Moment)
    → WhenReturned ((a ≡ none) × (b ≡ none)) (loop 2 false [] (turns false false a b ms))
unfolding loop
none_sent a b [] = tt
none_sent none b (up_ends ∷ ms) =
    WhenReturned-map (b ≡ none) _ _ (λ h. (refl, h)) (up_sent b (none ∷ []) ms)
none_sent (some e) b (up_ends ∷ ms) = tt
none_sent a none (down_ends ∷ ms) =
    WhenReturned-map (a ≡ none) _ _ (λ h. (h, refl)) (down_sent a (none ∷ []) ms)
none_sent a (some e) (down_ends ∷ ms) = tt
none_sent a b (ctx_ends e ∷ ms) = tt
none_sent a b (timer_fires ∷ ms) = none_sent a b ms

pub run-Fine :
    (inbound outbound : Conn) (a b : Option Error) (r : Option Returned) (f : Finished)
    → finish inbound outbound r ≡ some f
    → WhenReturned ((a ≡ none) × (b ≡ none)) r
    → Fine ((a ≡ none) × (b ≡ none)) f.error
unfolding force_close
run-Fine inbound outbound a b none f h w = cc
run-Fine inbound outbound a b (some r) f h w =
    subst (λ x. Fine ((a ≡ none) × (b ≡ none)) x)
      (ap (λ x. Finished.error x) (some-injective _ _ h)) w
