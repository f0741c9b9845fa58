-- ===== src/Command.antt =====
-- cmd/mhp/main.go: the command, from its flags to its exit code. What the flag package, crypto/tls
-- and the network answer is in the environment of a run.
pub mod Runs
pub mod ExitCode
pub mod Tokens
pub mod Configured
pub mod Tests
use mhp.Prelude.{
  ℕ, Bool, true, false, Option, none, some, List, [], ◌∷◌, Bytes, bytes_eq, codes, if◌then◌else◌,
}
use mhp.Errors.{Error, Result, ok, err, sentinel, other, wrap}
use mhp.Config.{Mode, mode_relay, mode_exit, mode_proxy}
use mhp.Config.Load.{Config, ParsedFlags, Order, Loaded, loaded, failed, LoadError, load}
use mhp.Transport.Timing.{Timing, default_timing}
use mhp.Transport.Handshake.{Verifier}
use mhp.Transport.Authenticator.{Authenticator}
use mhp.Transport.Connector.{Phase, returned, Connector, start}
use mhp.Transport.Connector
use mhp.Exit.Broker.Links.{Turn}
use mhp.Exit.Broker.Links
use mhp.Proxy.Accepting.{Incoming}
use mhp.Proxy.Accepting
use mhp.Logging.DebugFile.{Dir, Reserved}
use mhp.Logging.Setup.{Setup, ready, aborted, new_setup}

abbrev pub exit_ok : ℕ
exit_ok = 0

abbrev pub exit_provision : ℕ
exit_provision = 2

-- The variables that `flag.FlagSet` fills.
pub record Flags : Type 0 where
  pub mode : Bytes
  pub listen : Bytes
  pub relay : Bytes
  pub tls_name : Bytes
  pub ca : Bytes
  pub tls_cert : Bytes
  pub tls_key : Bytes
  pub token_file : Bytes
  pub exit_token_file : Bytes
  pub proxy_token_file : Bytes
  pub username : Bytes
  pub password : Bytes
  pub debug : Bool

-- `config.Mode(s)`.
unfoldable pub mode_of : Bytes → Mode
mode_of s =
    if bytes_eq s (codes "relay")
    then mode_relay
    else if bytes_eq s (codes "exit-node")
    then mode_exit
    else if bytes_eq s (codes "proxy")
    then mode_proxy
    else Mode.other s

abbrev pub converted : Result Flags → Result ParsedFlags
converted (err e) = err e
converted (ok f) = ok (record {
  mode = mode_of f.mode;
  listen = f.listen;
  relay = f.relay;
  tls_name = f.tls_name;
  ca_path = f.ca;
  tls_cert = f.tls_cert;
  tls_key = f.tls_key;
  token_file = f.token_file;
  exit_token_file = f.exit_token_file;
  proxy_token_file = f.proxy_token_file;
  username = f.username;
  password = f.password;
  debug = f.debug;
})

-- `parse` is `f.Parse` on the flag set that `parseFlags` declares.
unfoldable pub parse_flags : (List Bytes → Result Flags) → List Bytes → Result ParsedFlags
parse_flags parse argv = converted (parse argv)

-- The bearers that the relay expects, by role.
unfoldable pub verifier_of : Config → Verifier
verifier_of cfg mode_exit = some cfg.exit_token.content
verifier_of cfg mode_proxy = some cfg.proxy_token.content
verifier_of cfg mode = none

-- The identity of a client.
unfoldable pub authenticator_of : Config → Mode → Authenticator
authenticator_of cfg role = record {
  role = role;
  token = cfg.token.content;
  timing = default_timing;
}

-- What a run meets, and sees of its components.
pub record Env : Type 0 where
  -- the errors of `tls.LoadX509KeyPair`, `transport.LoadTrustPool` and `net.Listen`
  pub load_cert : Option Error
  pub trust_pool : Option Error
  pub listen : Option Error
  -- whether `service.Run` has returned; it returns `ctx.Err()`
  pub service_done : Bool
  -- what `broker.Run` and `listener.Run` go through, and the background `connector.Run`
  pub turns : List Turn
  pub incoming : List Incoming
  pub timing : Timing
  pub attempts : List Connector.Event
  -- `ctx.Err()` at the end
  pub ctx_err : Option Error

-- A call that has not returned, or its error.
pub data Outcome : Type 0 where
  blocks : Outcome
  returns : Option Error → Outcome

abbrev pub listened : Option Error → Outcome → Outcome
listened (some e) rest = returns (some (wrap "listen" e))
listened none rest = rest

abbrev pub certified : Option Error → Outcome → Outcome
certified (some e) rest = returns (some (wrap "load relay certificate" e))
certified none rest = rest

unfoldable pub run_relay : Env → Outcome
run_relay env =
    certified env.load_cert
      (listened env.listen (if env.service_done then returns env.ctx_err else blocks))

-- `wg.Wait()` behind a foreground loop that has returned.
abbrev pub joined : Phase → Option Error → Outcome
joined returned e = returns e
joined _ e = blocks

abbrev pub connector_phase : Env → Phase
connector_phase env = (Connector.run env.timing (start env.timing) env.attempts).phase

abbrev pub broker_joined : Phase → Links.RunResult → Outcome
broker_joined phase Links.waits = blocks
broker_joined phase (Links.fails e) = joined phase (some e)

-- The error of `LoadTrustPool` is logged only.
unfoldable pub run_exit : Env → Outcome
run_exit env = broker_joined (connector_phase env) (Links.run none env.turns).result

abbrev pub listener_joined : Phase → Accepting.RunResult → Outcome
listener_joined phase Accepting.waits = blocks
listener_joined phase (Accepting.fails e) = joined phase (some e)

unfoldable pub run_proxy : Env → Outcome
run_proxy env =
    listened env.listen (listener_joined (connector_phase env) (Accepting.run env.incoming).0)

-- The error of a run: of `config.Load`, of `logging.NewSetup`, or of the mode's runner.
pub data Failure : Type 0 where
  load_failed : LoadError → Failure
  setup_failed : Reserved → Failure
  run_failed : Error → Failure
  flags_failed : Error → Failure

pub data Ending : Type 0 where
  never : Ending
  ends : Option Failure → Ending

-- `unsupported mode "..."`.
abbrev pub unsupported : Error
unsupported = sentinel (other 2)

-- A runner's error is dropped when the context is done.
abbrev pub swallowed : Option Error → Outcome → Ending
swallowed ctx_err blocks = never
swallowed ctx_err (returns none) = ends none
swallowed none (returns (some e)) = ends (some (run_failed e))
swallowed (some c) (returns (some e)) = ends none

abbrev pub runner : Env → Mode → Outcome
runner env mode_relay = run_relay env
runner env mode_exit = run_exit env
runner env mode_proxy = run_proxy env
runner env mode = returns (some unsupported)

unfoldable pub run_mode : Env → Config → Ending
run_mode env cfg = swallowed env.ctx_err (runner env cfg.mode)

-- The outside of a process: `os.ReadFile`, `strings.ToLower`, the order in which `validate` visits
-- its map, the working directory, the name of the debug file, and what the runner meets.
pub record World : Type 0 where
  pub read_file : Bytes → Result Bytes
  pub to_lower : Bytes → Bytes
  pub order : Order
  pub dir : Dir
  pub base : Bytes
  pub parse : List Bytes → Result Flags
  pub env : Env

abbrev pub with_logger : World → Config → Setup → Ending
with_logger w cfg (aborted r) = ends (some (setup_failed r))
with_logger w cfg (ready logger dir) = run_mode w.env cfg

abbrev pub with_config : World → ParsedFlags → Loaded Config → Ending
with_config w flags (failed e) = ends (some (load_failed e))
with_config w flags (loaded cfg) = with_logger w cfg (new_setup w.to_lower w.dir w.base flags.debug)

unfoldable pub run_with_context : World → ParsedFlags → Ending
unfolding run_mode
run_with_context w flags = with_config w flags (load w.order w.read_file flags)

abbrev pub with_flags : World → Result ParsedFlags → Ending
with_flags w (err e) = ends (some (flags_failed e))
with_flags w (ok flags) = run_with_context w flags

unfoldable pub run : World → List Bytes → Ending
unfolding run_with_context parse_flags
run w argv = with_flags w (parse_flags w.parse argv)

abbrev pub code : Ending → Option ℕ
code never = none
code (ends none) = some exit_ok
code (ends (some e)) = some exit_provision

-- The exit code of the process, if it ends.
unfoldable pub main : World → List Bytes → Option ℕ
unfolding run
main w argv = code (run w argv)
