-- ===== src/Transport/Timing.antt =====
-- internal/transport/timing.go, and the reconnect delays of internal/transport/authenticator.go.
-- A time.Duration is an int64 of nanoseconds; the ratio of the jitter is kept in thousandths.
pub mod Backoff
pub mod Tests
use mhp.Prelude.{
  ℕ, zero, suc, ◌*◌, Bool, true, ◌||◌, List, [], ◌∷◌, ℤ, pos, ltℤ, leℤ, add64, double64, map,
  if◌then◌else◌,
}
use mhp.Errors.{Result, ok, err, sentinel, invalid_timing}

pub record Timing : Type 0 where
  pub dial_timeout : ℤ
  pub handshake_timeout : ℤ
  pub setup_timeout : ℤ
  pub keep_alive_interval : ℤ
  pub ping_timeout : ℤ
  pub stream_open_timeout : ℤ
  pub drain_timeout : ℤ
  pub min_backoff : ℤ
  pub max_backoff : ℤ
  pub healthy_window : ℤ
  pub jitter_ratio : ℤ  -- thousandths

abbrev pub seconds : ℕ → ℤ
seconds n = pos (n * 1_000_000_000)

abbrev pub default_timing : Timing
default_timing = record {
  dial_timeout = seconds 10;
  handshake_timeout = seconds 10;
  setup_timeout = seconds 10;
  keep_alive_interval = seconds 5;
  ping_timeout = seconds 5;
  stream_open_timeout = seconds 10;
  drain_timeout = seconds 30;
  min_backoff = seconds 1;
  max_backoff = seconds 30;
  healthy_window = seconds 60;
  jitter_ratio = pos 200;
}

-- The map of named durations; its names serve the message only.
abbrev pub durations : Timing → List ℤ
durations t =
    t.dial_timeout ∷ t.handshake_timeout ∷ t.setup_timeout ∷ t.keep_alive_interval ∷ t.ping_timeout
    ∷ t.stream_open_timeout ∷ t.drain_timeout ∷ t.min_backoff ∷ t.max_backoff ∷ t.healthy_window
    ∷ []

-- `for name, d := range durations`; Go visits the map in any order, which `order` stands for.
unfoldable pub require_positive : List ℤ → Result (Unit {0})
require_positive [] = ok tt
require_positive (d ∷ ds) =
    if leℤ d (pos 0) then err (sentinel invalid_timing) else require_positive ds

abbrev check_relations : Timing → Result (Unit {0})
check_relations t =
    if ltℤ t.max_backoff t.min_backoff
    then err (sentinel invalid_timing)
    else if ltℤ t.healthy_window t.min_backoff
    then err (sentinel invalid_timing)
    else if ltℤ t.jitter_ratio (pos 0) || ltℤ (pos 1000) t.jitter_ratio
    then err (sentinel invalid_timing)
    else ok tt

abbrev and_then : Result (Unit {0}) → Result (Unit {0}) → Result (Unit {0})
and_then (ok u) r = r
and_then (err e) r = err e

unfoldable pub validate : (List ℤ → List ℤ) → Timing → Result (Unit {0})
unfolding require_positive
validate order t = and_then (require_positive (order (durations t))) (check_relations t)

-- The loop of `Authenticator.backoff`, with the rounds that are left.
unfoldable pub grow : ℕ → ℤ → ℤ → ℤ
grow zero ceiling backoff = backoff
grow (suc n) ceiling backoff =
    let doubled = double64 backoff in
    let rest = grow n ceiling doubled in if leℤ ceiling doubled then ceiling else rest

-- `jitter` is the value of `time.Duration(rand.Float64() * float64(MinBackoff) * JitterRatio)`.
unfoldable pub backoff : Timing → ℕ → ℤ → ℤ
unfolding grow
backoff t attempt jitter =
    let delay = add64 (grow attempt t.max_backoff t.min_backoff) jitter in
    if ltℤ t.max_backoff delay then t.max_backoff else delay

-- `backoff = min(backoff*2, MaxBackoff)` in `Connector.Run`.
unfoldable pub next_backoff : Timing → ℤ → ℤ
next_backoff t backoff =
    let doubled = double64 backoff in if ltℤ t.max_backoff doubled then t.max_backoff else doubled
