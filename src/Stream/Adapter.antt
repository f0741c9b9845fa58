-- ===== src/Stream/Adapter.antt =====
-- internal/stream/adapter.go and addr.go: a yamux stream as a net.Conn. Of the stream it keeps what
-- the adapter does to it; yamux's `Close` is a half-close.
use mhp.Prelude.{
  ℕ, suc, ◌≡◌, Bool, true, false, ◌||◌, Option, List, [], ◌∷◌, ◌++◌, Bytes, is_empty, codes, arith,
  if◌then◌else◌,
}
use mhp.Errors.{Error}

pub record StreamAddr : Type 0 where
  pub network : Bytes
  pub address : Bytes

-- `Network` and `String`.
unfoldable pub network_name : StreamAddr → Bytes
network_name a = if is_empty a.network then codes "tcp" else a.network

unfoldable pub string : StreamAddr → Bytes
string a = if is_empty a.network then a.address else a.network ++ (b':' ∷ a.address)

pub record Adapter : Type 0 where
  pub local : StreamAddr
  pub remote : StreamAddr
  -- whether a past deadline was asked for, and how often the stream was closed
  pub deadline_past : Bool
  pub closes : ℕ

-- `Close` of the stream, with its answer.
abbrev pub close : Adapter → Option Error → Option Error × Adapter
close a answer = (answer, record a { closes = suc a.closes })

unfoldable pub finish : Adapter → Option Error → Option Error × Adapter
finish a answer = close a answer

unfoldable pub close_write : Adapter → Option Error → Option Error × Adapter
close_write a answer = close a answer

-- The error of `SetDeadline` is dropped.
unfoldable pub force_close : Adapter → Option Error → Option Error × Adapter
force_close a answer = close (record a { deadline_past = true }) answer

pub data Call : Type 0 where
  finishes closes_write forces : Option Error → Call

unfoldable pub step : Adapter → Call → Adapter
unfolding finish close_write force_close
step a (finishes answer) = (finish a answer).1
step a (closes_write answer) = (close_write a answer).1
step a (forces answer) = (force_close a answer).1

unfoldable pub run : Adapter → List Call → Adapter
run a [] = a
run a (call ∷ calls) = run (step a call) calls

abbrev pub is_forced : List Call → Bool
is_forced [] = false
is_forced (forces answer ∷ calls) = true
is_forced (call ∷ calls) = is_forced calls

-- Half-closes leave the deadline alone, so that reads go on, in whatever order and number they come;
-- a forced close among them does not.
run-deadline_past :
    (a : Adapter) (calls : List Call)
    → (run a calls).deadline_past ≡ (a.deadline_past || is_forced calls)
unfolding run step finish close_write force_close
run-deadline_past a [] = ground arith
run-deadline_past a (finishes answer ∷ calls) =
    run-deadline_past (record a { closes = suc a.closes }) calls
run-deadline_past a (closes_write answer ∷ calls) =
    run-deadline_past (record a { closes = suc a.closes }) calls
run-deadline_past a (forces answer ∷ calls) =
    let rest = run-deadline_past (record a { deadline_past = true; closes = suc a.closes }) calls in
    ground (arith, rest)
