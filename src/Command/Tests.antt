-- ===== src/Command/Tests.antt =====
-- The command (cmd/mhp/main.go) at concrete inputs.
use mathlib.Core.List.{reverse, reverse_perm}
use mhp.Prelude.{
  ◌≡◌, ◌↔◌, refl, true, false, none, some, [], ◌∷◌, Bytes, bytes_eq, is_empty, codes, if◌then◌else◌,
}
use mhp.Errors.{Result, ok, err, sentinel, net_closed, not_exist}
use mhp.Config.{mode_relay, mode_exit, mode_proxy, mode_eq}
use mhp.Config.Space.{trim_space}
use mhp.Config.Load.{
  Config, ParsedFlags, zero_config, relay_config, exit_config, Order, load, loaded,
}
use mhp.Transport.Timing.{default_timing}
use mhp.Transport.Handshake.{verify}
use mhp.Transport.Connector.{connects}
use mhp.Proxy.Accepting
use mhp.Command.{
  exit_ok, Flags, Env, never, run_mode, World, verifier_of, authenticator_of, mode_of, parse_flags,
  run_with_context, run_relay, run, main,
}
use mhp.Logging.Setup.{new_setup}
use mhp.Command.Runs.{run_mode-undone}
use mhp.Command.ExitCode.{Succeeds, main_ok_iff}
use mhp.Command.Tokens.{verify-load}

abbrev pub order : Order
order fields = reverse fields

-- The relay's file of the exit's bearer ends with a line feed.
abbrev pub read_file : Bytes → Result Bytes
read_file path =
    if bytes_eq path (codes "r")
    then ok (codes "key\n")
    else if bytes_eq path (codes "t")
    then ok (codes "key")
    else err (sentinel not_exist)

abbrev pub relay_flags : ParsedFlags
relay_flags = record {
  mode = mode_relay;
  listen = codes ":443";
  relay = [];
  tls_name = [];
  ca_path = [];
  tls_cert = codes "c";
  tls_key = codes "k";
  token_file = [];
  exit_token_file = codes "r";
  proxy_token_file = codes "t";
  username = [];
  password = [];
  debug = false;
}

abbrev pub exit_flags : ParsedFlags
exit_flags = record {
  mode = mode_exit;
  listen = [];
  relay = codes "relay:443";
  tls_name = [];
  ca_path = [];
  tls_cert = [];
  tls_key = [];
  token_file = codes "t";
  exit_token_file = [];
  proxy_token_file = [];
  username = [];
  password = [];
  debug = false;
}

abbrev pub relay : Config
relay = record (relay_config relay_flags) {
  exit_token = record { content = codes "key" };
  proxy_token = record { content = codes "key" };
}

abbrev pub client : Config
client = record (exit_config exit_flags) { token = record { content = codes "key" } }

pub relay_loads : load order read_file relay_flags ≡ loaded relay
unfolding load bytes_eq trim_space mode_eq
relay_loads = refl

pub client_loads : load order read_file exit_flags ≡ loaded client
unfolding load bytes_eq trim_space mode_eq
client_loads = refl

verify-load_at_input :
    (verify (verifier_of relay) mode_exit (authenticator_of client mode_exit).token ≡ ok tt) ↔ (
      (trim_space (codes "key") ≡ trim_space (codes "key\n"))
      × (is_empty (trim_space (codes "key")) ≡ false))
unfolding bytes_eq
verify-load_at_input =
    verify-load order order read_file read_file relay_flags exit_flags relay client (codes "key\n")
      (codes "key") (λ fields. reverse_perm fields) (λ fields. reverse_perm fields) refl refl
      relay_loads client_loads refl refl

-- A proxy whose listener fails.
abbrev env : Env
env = record {
  load_cert = none;
  trust_pool = none;
  listen = none;
  service_done = true;
  turns = [];
  incoming = Accepting.connects 1 ∷ Accepting.accept_error (sentinel net_closed) none ∷ [];
  timing = default_timing;
  attempts = connects 5 ∷ [];
  ctx_err = none;
}

run_mode-undone_example : run_mode env (record zero_config { mode = mode_proxy }) ≡ never
run_mode-undone_example =
    run_mode-undone env (record zero_config { mode = mode_proxy }) refl tt (tt, tt)

abbrev flags : Flags
flags = record {
  mode = codes "relay";
  listen = codes ":443";
  relay = [];
  tls_name = [];
  ca = [];
  tls_cert = codes "c";
  tls_key = codes "k";
  token_file = [];
  exit_token_file = codes "r";
  proxy_token_file = codes "t";
  username = [];
  password = [];
  debug = false;
}

abbrev world : World
world = record {
  read_file = read_file;
  to_lower = λ key. key;
  order = order;
  dir = record { names = []; obstacle = λ name. none };
  base = codes "d.txt";
  parse = λ argv. ok flags;
  env = env;
}

main_ok_iff_example : (main world [] ≡ some exit_ok) ↔ Succeeds world []
main_ok_iff_example = main_ok_iff world [] (λ fields. reverse_perm fields)

-- A relay whose accept loop has ended exits with 0.
world-main : main world [] ≡ some exit_ok
unfolding main run run_with_context parse_flags mode_of load bytes_eq trim_space mode_eq new_setup
    run_relay
world-main = refl
