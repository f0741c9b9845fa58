-- ===== src/Command/Runs.antt =====
-- How a run ends (cmd/mhp/main.go, with internal/exit, internal/proxy and the connector).
use mhp.Prelude.{
  ◌≡◌, refl, Bool, true, false, Option, none, some, List, [], ◌∷◌, All, arith, if◌then◌else◌,
}
use mhp.Errors.{Error, wrap, canceled, is}
use mhp.Config.{Mode, mode_relay, mode_exit, mode_proxy}
use mhp.Config.Load.{Config}
use mhp.Transport.Timing.{Timing}
use mhp.Transport.Connector.{
  Phase, connecting, waiting, serving, returned, Connector, connect_fails, connects, timer_fires,
  session_ends, parent_cancelled, start, advance, step,
}
use mhp.Transport.Connector
use mhp.Exit.Broker.Links.{IsQuiet, run-waits}
use mhp.Proxy.Accepting
use mhp.Command.{
  Env, blocks, run_relay, joined, connector_phase, run_exit, listener_joined, run_proxy, run_failed,
  unsupported, Ending, never, ends, swallowed, runner, run_mode,
}

-- No attempt of the connector is cancelled.
abbrev pub IsCalm : Connector.Event → Type 0
IsCalm parent_cancelled = ⊥
IsCalm (connect_fails e) = is canceled e ≡ false
IsCalm _ = Unit

abbrev is_over : Phase → Bool
is_over returned = true
is_over _ = false

advance-is_over :
    (t : Timing) (phase : Phase) (event : Connector.Event) (c : Connector)
    → c.phase ≡ phase
    → IsCalm event
    → is_over phase ≡ false
    → is_over (advance t phase event c).phase ≡ false
unfolding advance Connector.clear_if Connector.after_session
advance-is_over t phase event c p h o = ground (arith, p, h, o)

run-is_over :
    (t : Timing) (c : Connector) (events : List Connector.Event)
    → All IsCalm events
    → is_over c.phase ≡ false
    → is_over (Connector.run t c events).phase ≡ false
unfolding Connector.run step
run-is_over t c [] h o = o
run-is_over t c (event ∷ events) (h, hs) o =
    run-is_over t (step t c event) events hs (advance-is_over t c.phase event c refl h o)

-- The connector of a run that is not cancelled keeps on.
connector-is_over : (env : Env) → All IsCalm env.attempts → is_over (connector_phase env) ≡ false
unfolding start
connector-is_over env h = run-is_over env.timing (start env.timing) env.attempts h refl

joined-blocks : (phase : Phase) (e : Option Error) → is_over phase ≡ false → joined phase e ≡ blocks
joined-blocks phase e h = ground (arith, h)

-- How a mode ends while the context is not done.
abbrev pub undone : Env → Mode → Ending
undone env mode_relay = elim env.load_cert [
  | some e ↦ ends (some (run_failed (wrap "load relay certificate" e)))
  | none ↦ elim env.listen [
    | some e ↦ ends (some (run_failed (wrap "listen" e)))
    | none ↦ if env.service_done then ends none else never
  ]
]
undone env mode_exit = never
undone env mode_proxy = elim env.listen [
  | some e ↦ ends (some (run_failed (wrap "listen" e)))
  | none ↦ never
]
undone env mode = ends (some (run_failed unsupported))

run_proxy_waits :
    (env : Env)
    → All IsCalm env.attempts
    → (listener_joined (connector_phase env) (Accepting.run env.incoming).0) ≡ blocks
run_proxy_waits env h = ground (arith, connector-is_over env h)

runner-undone :
    (env : Env) (mode : Mode)
    → env.ctx_err ≡ none
    → All IsQuiet env.turns
    → All IsCalm env.attempts
    → swallowed env.ctx_err (runner env mode) ≡ undone env mode
unfolding run_relay run_exit run_proxy
runner-undone env mode_relay h q k = ground (arith, h)
runner-undone env mode_exit h q k = ground (arith, (run-waits none env.turns q).ends)
runner-undone env mode_proxy h q k = ground (arith, h, run_proxy_waits env k)
runner-undone env (Mode.other s) h q k = ground (arith, h)

-- While the context is not done and no attempt of the connector is cancelled: a relay ends with the
-- error of its certificate or of its address, and without an error when its service ends; an
-- exit-node does not end; a proxy ends with the error of its address, and does not end otherwise,
-- also when its listener has failed for good; any other mode ends with an error.
pub run_mode-undone :
    (env : Env) (cfg : Config)
    → env.ctx_err ≡ none
    → All IsQuiet env.turns
    → All IsCalm env.attempts
    → run_mode env cfg ≡ undone env cfg.mode
unfolding run_mode
run_mode-undone env cfg = runner-undone env cfg.mode
