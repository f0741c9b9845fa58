-- ===== src/Config/Load.antt =====
-- internal/config/config.go: from the parsed flags to the configuration of a run.
pub mod Fields
pub mod Accepts
pub mod Tests
use Prim.Native.String.{String}
use mhp.Prelude.{
  ℕ, Bool, true, false, not, ◌&&◌, List, [], ◌∷◌, Bytes, is_empty, bytes_eq, if◌then◌else◌,
}
use mhp.Errors.{Error, Result, ok, err}
use mhp.Config.{Mode, mode_relay, mode_exit, mode_proxy, mode_eq}
use mhp.Config.Space.{trim_space}

pub record Secret : Type 0 where
  pub content : Bytes

-- `Secret.Equal`; `subtle.ConstantTimeCompare` is 1 for equal contents.
unfoldable pub equal : Secret → Secret → Bool
equal s o = bytes_eq s.content o.content

pub record Config : Type 0 where
  pub mode : Mode
  pub listen : Bytes
  pub relay : Bytes
  pub tls_name : Bytes
  pub ca_path : Bytes
  pub tls_cert : Bytes
  pub tls_key : Bytes
  pub token_file : Bytes
  pub exit_token_file : Bytes
  pub proxy_token_file : Bytes
  pub exit_token : Secret
  pub proxy_token : Secret
  pub token : Secret
  pub username : Bytes
  pub password : Bytes

pub record ParsedFlags : Type 0 where
  pub mode : Mode
  pub listen : Bytes
  pub relay : Bytes
  pub tls_name : Bytes
  pub ca_path : Bytes
  pub tls_cert : Bytes
  pub tls_key : Bytes
  pub token_file : Bytes
  pub exit_token_file : Bytes
  pub proxy_token_file : Bytes
  pub username : Bytes
  pub password : Bytes
  pub debug : Bool

pub data Reason : Type 0 where
  unrecognized_mode cannot_load both_required : Reason
  required_for : Mode → Reason

pub data LoadError : Type 0 where
  validation : String → Reason → LoadError
  -- `read token file "path": ...`
  unreadable : Bytes → Error → LoadError

pub data Loaded {ℓ} (A : Type ℓ) : Type ℓ where
  loaded : A → Loaded A
  failed : LoadError → Loaded A

infixl 5 ◌>>=◌
abbrev ◌>>=◌ {ℓ κ} : {A : Type ℓ} {B : Type κ} → Loaded A → (A → Loaded B) → Loaded B
loaded a >>= f = f a
failed e >>= f = failed e

infixl 5 ◌>>◌
abbrev ◌>>◌ {ℓ κ} : {A : Type ℓ} {B : Type κ} → Loaded A → Loaded B → Loaded B
m >> n = m >>= (λ a. n)

abbrev pub zero_config : Config
zero_config = record {
  mode = Mode.other [];
  listen = [];
  relay = [];
  tls_name = [];
  ca_path = [];
  tls_cert = [];
  tls_key = [];
  token_file = [];
  exit_token_file = [];
  proxy_token_file = [];
  exit_token = record { content = [] };
  proxy_token = record { content = [] };
  token = record { content = [] };
  username = [];
  password = [];
}

abbrev pub relay_config : ParsedFlags → Config
relay_config parsed = record zero_config {
  mode = mode_relay;
  listen = parsed.listen;
  tls_cert = parsed.tls_cert;
  tls_key = parsed.tls_key;
  exit_token_file = parsed.exit_token_file;
  proxy_token_file = parsed.proxy_token_file;
}

abbrev pub exit_config : ParsedFlags → Config
exit_config parsed = record zero_config {
  mode = mode_exit;
  relay = parsed.relay;
  tls_name = parsed.tls_name;
  ca_path = parsed.ca_path;
  token_file = parsed.token_file;
}

abbrev pub proxy_config : ParsedFlags → Config
proxy_config parsed = record zero_config {
  mode = mode_proxy;
  listen = parsed.listen;
  relay = parsed.relay;
  tls_name = parsed.tls_name;
  ca_path = parsed.ca_path;
  token_file = parsed.token_file;
  username = parsed.username;
  password = parsed.password;
}

abbrev skeleton : Mode → ParsedFlags → Loaded Config
skeleton mode_relay parsed = loaded (relay_config parsed)
skeleton mode_exit parsed = loaded (exit_config parsed)
skeleton mode_proxy parsed = loaded (proxy_config parsed)
skeleton _ parsed = failed (validation "mode" unrecognized_mode)

unfoldable pub build : ParsedFlags → Loaded Config
build parsed = skeleton parsed.mode parsed

-- Go visits the map of the fields in any order, which `order` stands for.
abbrev pub Order : Type 0
Order = List (String × Bytes) → List (String × Bytes)

unfoldable require : Mode → List (String × Bytes) → Loaded (Unit {0})
require mode [] = loaded tt
require mode ((field, v) ∷ fields) =
    let rest = require mode fields in
    if is_empty v then failed (validation field (required_for mode)) else rest

abbrev relay_fields : Config → List (String × Bytes)
relay_fields cfg =
    ("-listen", cfg.listen)
    ∷ ("-tls-cert", cfg.tls_cert)
    ∷ ("-tls-key", cfg.tls_key)
    ∷ ("-exit-token-file", cfg.exit_token_file)
    ∷ ("-proxy-token-file", cfg.proxy_token_file)
    ∷ []

abbrev client_fields : Config → List (String × Bytes)
client_fields cfg = ("-relay", cfg.relay) ∷ ("-token-file", cfg.token_file) ∷ []

-- The `switch` of `validate`.
abbrev check_fields : Order → Mode → Config → Loaded (Unit {0})
check_fields order mode_relay cfg = require mode_relay (order (relay_fields cfg))
check_fields order mode_exit cfg = require mode_exit (client_fields cfg)
check_fields order mode_proxy cfg = require mode_proxy (client_fields cfg)
check_fields order _ cfg = loaded tt

abbrev differ : Bool → Bool → Bool
differ true b = not b
differ false b = b

abbrev check_credentials : Config → Loaded (Unit {0})
check_credentials cfg =
    if mode_eq cfg.mode mode_proxy && differ (is_empty cfg.username) (is_empty cfg.password)
    then failed (validation "-username/-password" both_required)
    else loaded tt

unfoldable pub validate : Order → Config → Loaded (Unit {0})
unfolding require
validate order cfg = do check_fields order cfg.mode cfg; check_credentials cfg

abbrev trimmed : Bytes → Result Bytes → Loaded Secret
trimmed path (ok content) = loaded (record { content = trim_space content })
trimmed path (err e) = failed (unreadable path e)

-- `read_file` is `os.ReadFile`.
unfoldable pub load_token : (Bytes → Result Bytes) → Bytes → Loaded Secret
load_token read_file path = trimmed path (read_file path)

abbrev load_by_mode : (Bytes → Result Bytes) → Mode → Config → Loaded Config
load_by_mode read_file mode_relay cfg = do
  exit ← load_token read_file cfg.exit_token_file
  proxy ← load_token read_file cfg.proxy_token_file
  loaded (record cfg { exit_token = exit; proxy_token = proxy })
load_by_mode read_file mode_exit cfg = do
  token ← load_token read_file cfg.token_file
  loaded (record cfg { token = token })
load_by_mode read_file mode_proxy cfg = do
  token ← load_token read_file cfg.token_file
  loaded (record cfg { token = token })
load_by_mode read_file _ cfg = failed (validation "mode" cannot_load)

unfoldable pub load_tokens : (Bytes → Result Bytes) → Config → Loaded Config
unfolding load_token
load_tokens read_file cfg = load_by_mode read_file cfg.mode cfg

unfoldable pub load : Order → (Bytes → Result Bytes) → ParsedFlags → Loaded Config
unfolding build validate load_tokens
load order read_file parsed = do cfg ← build parsed; validate order cfg; load_tokens read_file cfg
