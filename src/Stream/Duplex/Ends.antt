-- ===== src/Stream/Duplex/Ends.antt =====
-- How `Duplex.Run` ends (internal/stream/duplex.go).
use mathlib.Core.Path.{subst}
use mhp.Prelude.{
  ℕ, zero, suc, ◌≡◌, refl, ◌∙◌, Bool, true, false, Option, none, some, List, [], ◌∷◌, ◌++◌,
}
use mhp.Errors.{Error, sentinel, drain_timeout}
use mhp.Stream.Duplex.{
  Conn, Turn, result, cancelled, times_out, Returned, loop, force_close, Finished, finish, run,
}

-- The result of `Run`, the results that its loop received, and the workers left to the deferred loop.
pub data Ends : Option Error → List (Option Error) → ℕ → Type 0 where
  -- both directions end cleanly
  clean : Ends none (none ∷ none ∷ []) 0
  -- a direction fails, as the first or after a clean one
  first_fails : (e : Error) → Ends (some e) (some e ∷ []) 1
  second_fails : (e : Error) → Ends (some e) (none ∷ some e ∷ []) 0
  -- the second direction outlasts the timer that the clean end of the first has armed
  outlasts : Ends (some (sentinel drain_timeout)) (none ∷ []) 1
  -- the context ends before any direction, or between the two
  cancelled_first : (e : Error) → Ends (some e) [] 2
  cancelled_between : (e : Error) → Ends (some e) (none ∷ []) 1

abbrev Allowed : Option Returned → Type 0
Allowed none = Unit
Allowed (some r) = Ends r.error r.received r.remaining

loop_one-Allowed : (turns : List Turn) → Allowed (loop 1 true (none ∷ []) turns)
unfolding loop
loop_one-Allowed [] = tt
loop_one-Allowed (result (some e) ∷ turns) = second_fails e
loop_one-Allowed (result none ∷ turns) = clean
loop_one-Allowed (cancelled e ∷ turns) = cancelled_between e
loop_one-Allowed (times_out ∷ turns) = outlasts

loop_two-Allowed : (turns : List Turn) → Allowed (loop 2 false [] turns)
unfolding loop
loop_two-Allowed [] = tt
loop_two-Allowed (result (some e) ∷ turns) = first_fails e
loop_two-Allowed (result none ∷ turns) = loop_one-Allowed turns
loop_two-Allowed (cancelled e ∷ turns) = cancelled_first e
loop_two-Allowed (times_out ∷ turns) = loop_two-Allowed turns

-- One of the ways to end, with both connections closed past their deadlines.
abbrev pub EndsWell : Conn → Conn → Finished → Type 0
EndsWell inbound outbound f =
    Ends f.error f.received f.drained
    × (f.inbound ≡ record inbound { deadline_past = true; closed = true })
    × (f.outbound ≡ record outbound { deadline_past = true; closed = true })

abbrev WhenFinished : Conn → Conn → Option Finished → Type 0
WhenFinished inbound outbound none = Unit
WhenFinished inbound outbound (some f) = EndsWell inbound outbound f

finish-WhenFinished :
    (inbound outbound : Conn) (r : Option Returned)
    → Allowed r
    → WhenFinished inbound outbound (finish inbound outbound r)
unfolding force_close
finish-WhenFinished inbound outbound none h = tt
finish-WhenFinished inbound outbound (some r) h = (h, refl, refl)

-- When `Run` returns, both connections are closed past their deadlines, and the result fits what its
-- loop received: nil only after two clean ends, the error of a direction as soon as it is received,
-- the drain timeout only between the two ends. Received and deferred results are two in every case.
pub run-EndsWell :
    (inbound outbound : Conn) (turns : List Turn) (f : Finished)
    → run inbound outbound turns ≡ some f
    → EndsWell inbound outbound f
unfolding run
run-EndsWell inbound outbound turns f h =
    subst (WhenFinished inbound outbound) h
      (finish-WhenFinished inbound outbound (loop 2 false [] turns) (loop_two-Allowed turns))

abbrev pub returns {ℓ} : {A : Type ℓ} → Option A → Bool
returns none = false
returns (some x) = true

-- `forceClose` ends the workers that run on, whatever their peers do, so that `Run` returns when its
-- loop does.
returns-finish :
    (inbound outbound : Conn) (r : Option Returned)
    → returns (finish inbound outbound r) ≡ returns r
unfolding force_close
returns-finish inbound outbound none = refl
returns-finish inbound outbound (some r) = refl

loop-cancelled :
    (n : ℕ) (armed : Bool) (received : List (Option Error)) (before after : List Turn) (e : Error)
    → returns (loop n armed received (before ++ cancelled e ∷ after)) ≡ true
unfolding loop
loop-cancelled zero armed received before after e = refl
loop-cancelled (suc n) armed received [] after e = refl
loop-cancelled (suc n) armed received (result (some f) ∷ before) after e = refl
loop-cancelled (suc n) armed received (result none ∷ before) after e =
    loop-cancelled n true (received ++ (none ∷ [])) before after e
loop-cancelled (suc n) armed received (cancelled f ∷ before) after e = refl
loop-cancelled (suc n) true received (times_out ∷ before) after e = refl
loop-cancelled (suc n) false received (times_out ∷ before) after e =
    loop-cancelled (suc n) false received before after e

pub run-cancelled_returns :
    (inbound outbound : Conn) (before after : List Turn) (e : Error)
    → returns (run inbound outbound (before ++ cancelled e ∷ after)) ≡ true
unfolding run
run-cancelled_returns inbound outbound before after e =
    returns-finish inbound outbound _ ∙ loop-cancelled 2 false [] before after e
