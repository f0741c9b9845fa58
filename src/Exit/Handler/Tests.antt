-- ===== src/Exit/Handler/Tests.antt =====
-- The handler of the exit (internal/exit/handler.go) at concrete inputs.
use mhp.Prelude.{◌≡◌, refl, pos, negsuc, ltℤ, true, false, not, ◌&&◌, none, some, List, [], ◌∷◌}
use mhp.Errors.{sentinel, eof}
use mhp.Exit.Handler.{
  Options, defaults, serving, returned, finished, new_stream, Event, arms, serves, session_ends,
  sees_done, sees_stop, joins, advance, step, run,
}
use mhp.Exit.Handler.Serving.{
  is_returned, is_serving, is_watching, run-new_stream, run-session_ends,
}
use mhp.Exit.Handler.Defaults.{defaults-defaults}

abbrev served : List Event
served =
    arms none ∷ serves (some (sentinel eof)) ∷ session_ends ∷ sees_stop ∷ sees_done ∷ joins ∷ []

served-run : run new_stream served ≡ record {
  server = returned (some (sentinel eof));
  watcher = finished;
  session_done = true;
  conn_closed = false;
}
unfolding run step advance new_stream
served-run = refl

run-new_stream_at_input :
    let s = run new_stream served in
    (is_returned s.server && is_watching s.watcher ≡ false)
    × (s.conn_closed && not s.session_done ≡ false)
    × (is_serving s.server && not (is_watching s.watcher) && not s.conn_closed ≡ false)
run-new_stream_at_input = run-new_stream served

arms-run : (run new_stream (arms none ∷ [])).server ≡ serving
unfolding run step advance new_stream
arms-run = refl

run-session_ends_at_input :
    let s =
      run
        (run new_stream (arms none ∷ []))
        (session_ends ∷ sees_done ∷ serves none ∷ sees_stop ∷ joins ∷ []) in
    (s.server ≡ returned none) × (s.conn_closed ≡ true)
run-session_ends_at_input = run-session_ends (arms none ∷ []) none arms-run

abbrev unset : Options
unset = record {
  setup_timeout = pos 0;
  dial_timeout = negsuc 4;
  resolve_timeout = pos 7;
  resolve_bound = pos 0;
}

unset-defaults : defaults unset ≡ record {
  setup_timeout = pos 15_000_000_000;
  dial_timeout = pos 10_000_000_000;
  resolve_timeout = pos 7;
  resolve_bound = pos 16;
}
unfolding defaults
unset-defaults = refl

defaults-defaults_at_input :
    (defaults (defaults unset) ≡ defaults unset)
    × (ltℤ (pos 0) (defaults unset).setup_timeout ≡ true)
    × (ltℤ (pos 0) (defaults unset).dial_timeout ≡ true)
    × (ltℤ (pos 0) (defaults unset).resolve_timeout ≡ true)
    × (ltℤ (pos 0) (defaults unset).resolve_bound ≡ true)
defaults-defaults_at_input = defaults-defaults unset
