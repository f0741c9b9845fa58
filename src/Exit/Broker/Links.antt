-- ===== src/Exit/Broker/Links.antt =====
-- internal/exit/broker.go: the links that `Broker.Run` serves.
use mathlib.Core.Path.{subst}
use mathlib.Core.List.{append-nil}
use mhp.Prelude.{
  ℕ, suc, ◌+◌, ◌≡◌, refl, All, ◌++◌, Bool, true, false, ◌==◌, Option, none, some, List, [], ◌∷◌,
  length, arith, if◌then◌else◌,
}
use mhp.Errors.{Error}

-- One turn of the loop: `ctx.Err()` at its start, `Snapshot()`, and the error of the context when it
-- ends `sleepUntil`. A link is the number of its `*LinkedSession`.
pub record Turn : Type 0 where
  pub cancelled : Option Error
  pub snapshot : Option ℕ
  pub woken : Option Error

-- `waits` is a call that has not returned.
pub data RunResult : Type 0 where
  waits : RunResult
  fails : Error → RunResult

-- What `Run` did: its result, the links it called `serveSession` with, in order, and how often it
-- slept.
pub record Ran : Type 0 where
  pub result : RunResult
  pub links : List ℕ
  pub sleeps : ℕ

-- `!ok || link == last`.
abbrev pub stalls : Option ℕ → Option ℕ → Bool
stalls none last = true
stalls (some link) none = false
stalls (some link) (some last) = link == last

abbrev slept : Ran → Ran
slept r = record r { sleeps = suc r.sleeps }

abbrev served : Option ℕ → Ran → Ran
served none r = r
served (some link) r = record r { links = link ∷ r.links }

abbrev pub stopped : Error → Ran
stopped e = record { result = fails e; links = []; sleeps = 0 }

-- The result of a turn, where `stall` and `serve` are those of the next turns, after a sleep and
-- after the link was served.
abbrev pub turned : Option ℕ → Turn → Ran → Ran → Ran
turned last turn stall serve = elim turn.cancelled [
  | some e ↦ stopped e
  | none ↦
      if stalls turn.snapshot last
      then elim turn.woken [ some e ↦ slept (stopped e) | none ↦ slept stall ]
      else served turn.snapshot serve
]

unfoldable pub run : Option ℕ → List Turn → Ran
run last [] = record { result = waits; links = []; sleeps = 0 }
run last (turn ∷ turns) = turned last turn (run last turns) (run turn.snapshot turns)

-- The links that the connector published, as the loop saw them, and those that differ from the one
-- before.
abbrev pub published : List Turn → List ℕ
published [] = []
published (turn ∷ turns) = elim turn.snapshot [
  | none ↦ published turns
  | some link ↦ link ∷ published turns
]

abbrev pub changes : Option ℕ → List ℕ → List ℕ
changes last [] = []
changes none (link ∷ links) = link ∷ changes (some link) links
changes (some last) (link ∷ links) =
    let rest = changes (some link) links in if link == last then rest else link ∷ rest

-- The context is not done in this turn.
abbrev pub IsQuiet : Turn → Type 0
IsQuiet turn = (turn.cancelled ≡ none) × (turn.woken ≡ none)

-- What `Run` did when it saw these turns before it ended with this result.
pub record Follows (last : Option ℕ) (turns : List Turn) (result : RunResult) (r : Ran)
    : Type 0 where
  pub ends : r.result ≡ result
  pub serves : r.links ≡ changes last (published turns)
  pub accounts : r.sleeps + length r.links ≡ length turns

run-Follows :
    (last : Option ℕ) (turns rest : List Turn) (result : RunResult)
    → ((after : Option ℕ) → Follows after [] result (run after rest))
    → All IsQuiet turns
    → Follows last turns result (run last (turns ++ rest))
unfolding run
run-Follows last [] rest result h q = h last
run-Follows last (turn ∷ turns) rest result h (q, qs) =
    let stall = run-Follows last turns rest result h qs in
    let serve = run-Follows turn.snapshot turns rest result h qs in
    record {
      ends = ground (arith, q, stall.ends, serve.ends);
      serves = ground (arith, q, stall.serves, serve.serves);
      accounts = ground (arith, q, stall.accounts, serve.accounts);
    }

stopped-Follows :
    (after : Option ℕ) (turn : Turn) (rest : List Turn) (e : Error)
    → turn.cancelled ≡ some e
    → Follows after [] (fails e) (run after (turn ∷ rest))
unfolding run
stopped-Follows after turn rest e h = rw h (record { ends = refl; serves = refl; accounts = refl })

-- While the context is not done, `Run` does not return.
pub run-waits :
    (last : Option ℕ) (turns : List Turn)
    → All IsQuiet turns
    → Follows last turns waits (run last turns)
unfolding run
run-waits last turns q =
    subst (λ ts. Follows last turns waits (run last ts)) (append-nil turns)
      (run-Follows last turns [] waits
        (λ after. record { ends = refl; serves = refl; accounts = refl }) q)

-- The broker serves each link that differs from the one it saw last, once and in order, and sleeps
-- in every other turn; while its context is not done it does not return, and when it sees the
-- context done it returns with the context's error.
pub run-cancelled :
    (turns rest : List Turn) (turn : Turn) (e : Error)
    → All IsQuiet turns
    → turn.cancelled ≡ some e
    → Follows none turns waits (run none turns)
      × Follows none turns (fails e) (run none (turns ++ turn ∷ rest))
run-cancelled turns rest turn e q h = (
  run-waits none turns q,
  run-Follows none turns (turn ∷ rest) (fails e) (λ after. stopped-Follows after turn rest e h) q,
)
