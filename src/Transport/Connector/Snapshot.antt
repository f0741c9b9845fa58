-- ===== src/Transport/Connector/Snapshot.antt =====
-- What `Snapshot` hands out (internal/transport/connector.go).
use mathlib.Core.Path.{subst}
use mhp.Prelude.{ℤ, ℕ, ◌≡◌, refl, sym, Option, none, some, List, [], ◌∷◌, arith}
use mhp.Transport.Timing.{Timing}
use mhp.Transport.Connector.{
  Phase, connecting, waiting, returned, serving, Connector, Event, connect_fails, connects,
  timer_fires, session_ends, parent_cancelled, start, snapshot, clear_if, after_session, advance,
  step, run,
}

-- The link that `Snapshot` may show in a phase. A `Run` that has returned says nothing of it.
abbrev pub Shows : Phase → Option ℕ → Type 0
Shows connecting link = link ≡ none
Shows waiting link = link ≡ none
Shows (serving l) link = link ≡ some l
Shows returned link = Unit {0}

pub after_session-current :
    (t : Timing) (uptime : ℤ) (c : Connector) → (after_session t uptime c).current ≡ c.current
unfolding after_session
after_session-current t uptime c = ground arith

advance-Shows :
    (t : Timing) (phase : Phase) (event : Event) (c : Connector)
    → c.phase ≡ phase
    → Shows phase (snapshot c)
    → Shows (advance t phase event c).phase (snapshot (advance t phase event c))
unfolding advance snapshot clear_if after_session
advance-Shows t connecting (connect_fails e) c p h = ground arith
advance-Shows t connecting (connects link) c p h = refl
advance-Shows t waiting timer_fires c p h = h
advance-Shows t waiting parent_cancelled c p h = tt
advance-Shows t (serving link) (session_ends uptime) c p h = ground arith
advance-Shows t (serving link) parent_cancelled c p h = tt
advance-Shows t phase event c p h = subst (λ q. Shows q c.current) (sym p) h

run-Shows :
    (t : Timing) (c : Connector) (events : List Event)
    → Shows c.phase (snapshot c)
    → Shows (run t c events).phase (snapshot (run t c events))
unfolding run step
run-Shows t c [] h = h
run-Shows t c (event ∷ events) h =
    run-Shows t (step t c event) events (advance-Shows t c.phase event c refl h)

-- Whatever happens to a connector from its start, `Snapshot` shows the link while `Run` serves it,
-- and none while `Run` connects or waits.
pub snapshot-phase :
    (t : Timing) (events : List Event)
    → Shows (run t (start t) events).phase (snapshot (run t (start t) events))
unfolding start snapshot
snapshot-phase t events = run-Shows t (start t) events refl
