-- ===== src/Config/Load/Accepts.antt =====
-- What `Load` accepts, and what it returns (internal/config/config.go).
use Prim.Native.String.{String}
use mathlib.Core.List.{Perm}
use mathlib.Core.Path.{subst}
use mhp.Prelude.{◌≡◌, refl, sym, ap, ◌↔◌, true, false, List, Bytes, is_empty, arith}
use mhp.Errors.{Result, ok, err}
use mhp.Config.{Mode, mode_relay, mode_exit, mode_proxy, mode_eq}
use mhp.Config.Space.{trim_space}
use mhp.Config.Load.Fields.{
  all_present, require_loaded, all_present-perm, bind_loaded, loaded_injective, both_loaded,
}
use mhp.Config.Load.{
  Secret, Config, ParsedFlags, loaded, ◌>>=◌, zero_config, skeleton, relay_config, exit_config,
  proxy_config, build, Order, require, check_fields, relay_fields, check_credentials, trimmed,
  validate, load_token, load_by_mode, load_tokens, load,
}

-- An order in which the fields of a map may be visited: each once.
abbrev pub Visits : Order → Type 0
Visits order = (fields : List (String × Bytes)) → Perm (order fields) fields

abbrev pub Present : Bytes → Type 0
Present v = is_empty v ≡ false

-- The secret is the content of the file without the white space around it.
abbrev pub Reads : (Bytes → Result Bytes) → Bytes → Secret → Type 0
Reads read_file path s =
    (content : Bytes) × (read_file path ≡ ok content) × (s.content ≡ trim_space content)

-- The conditions on the flags and files of a mode, and the configuration that they give.
abbrev pub Accepts : (Bytes → Result Bytes) → Mode → ParsedFlags → Config → Type 0
Accepts read_file mode_relay p c =
    Present p.listen
    × Present p.tls_cert
    × Present p.tls_key
    × Present p.exit_token_file
    × Present p.proxy_token_file
    × Reads read_file p.exit_token_file c.exit_token
    × Reads read_file p.proxy_token_file c.proxy_token
    × (c ≡ record zero_config {
      mode = mode_relay;
      listen = p.listen;
      tls_cert = p.tls_cert;
      tls_key = p.tls_key;
      exit_token_file = p.exit_token_file;
      proxy_token_file = p.proxy_token_file;
      exit_token = c.exit_token;
      proxy_token = c.proxy_token;
    })
Accepts read_file mode_exit p c =
    Present p.relay
    × Present p.token_file
    × Reads read_file p.token_file c.token
    × (c ≡ record zero_config {
      mode = mode_exit;
      relay = p.relay;
      tls_name = p.tls_name;
      ca_path = p.ca_path;
      token_file = p.token_file;
      token = c.token;
    })
Accepts read_file mode_proxy p c =
    Present p.relay
    × Present p.token_file
    × (is_empty p.username ≡ is_empty p.password)
    × Reads read_file p.token_file c.token
    × (c ≡ record zero_config {
      mode = mode_proxy;
      listen = p.listen;
      relay = p.relay;
      tls_name = p.tls_name;
      ca_path = p.ca_path;
      token_file = p.token_file;
      username = p.username;
      password = p.password;
      token = c.token;
    })
Accepts read_file (Mode.other s) p c = ⊥

trimmed-Reads :
    (read_file : Bytes → Result Bytes) (path : Bytes) (r : Result Bytes) (s : Secret)
    → read_file path ≡ r
    → trimmed path r ≡ loaded s
    → Reads read_file path s
trimmed-Reads read_file path (ok content) s h k = (content, h, cc)
trimmed-Reads read_file path (err e) s h k = cc

load_token-Reads :
    (read_file : Bytes → Result Bytes) (path : Bytes) (s : Secret)
    → load_token read_file path ≡ loaded s
    → Reads read_file path s
unfolding load_token
load_token-Reads read_file path s h = trimmed-Reads read_file path (read_file path) s refl h

Reads-load_token :
    (read_file : Bytes → Result Bytes) (path : Bytes) (s : Secret)
    → Reads read_file path s
    → load_token read_file path ≡ loaded s
unfolding load_token
Reads-load_token read_file path s (content, h, k) = rw h (cc k)

relay_present :
    (order : Order) (cfg : Config)
    → Visits order
    → (require mode_relay (order (relay_fields cfg)) ≡ loaded tt)
      ↔ (all_present (relay_fields cfg) ≡ true)
relay_present order cfg v =
    rw (sym (all_present-perm (order (relay_fields cfg)) (relay_fields cfg) (v (relay_fields cfg))))
      (require_loaded mode_relay (order (relay_fields cfg)))

relay_loads :
    (read_file : Bytes → Result Bytes) (cfg c : Config)
    → load_by_mode read_file mode_relay cfg ≡ loaded c
    → Reads read_file cfg.exit_token_file c.exit_token
      × Reads read_file cfg.proxy_token_file c.proxy_token
      × (c ≡ record cfg { exit_token = c.exit_token; proxy_token = c.proxy_token })
relay_loads read_file cfg c h =
    let (exit, first, rest) =
      bind_loaded (load_token read_file cfg.exit_token_file)
        (λ exit.
          load_token read_file cfg.proxy_token_file
          >>= (λ proxy. loaded (record cfg { exit_token = exit; proxy_token = proxy })))
        c h in
    let (proxy, second, last) =
      bind_loaded (load_token read_file cfg.proxy_token_file)
        (λ proxy. loaded (record cfg { exit_token = exit; proxy_token = proxy })) c rest in
    subst
      (λ d.
        Reads read_file cfg.exit_token_file d.exit_token
        × Reads read_file cfg.proxy_token_file d.proxy_token
        × (d ≡ record cfg { exit_token = d.exit_token; proxy_token = d.proxy_token }))
      (loaded_injective _ c last)
      (
        load_token-Reads read_file cfg.exit_token_file exit first,
        load_token-Reads read_file cfg.proxy_token_file proxy second,
        refl,
      )

client_loads :
    (read_file : Bytes → Result Bytes) (cfg c : Config)
    → (load_token read_file cfg.token_file >>= (λ token. loaded (record cfg { token = token })))
      ≡ loaded c
    → Reads read_file cfg.token_file c.token × (c ≡ record cfg { token = c.token })
client_loads read_file cfg c h =
    let (token, first, last) =
      bind_loaded (load_token read_file cfg.token_file)
        (λ token. loaded (record cfg { token = token })) c h in
    subst (λ d. Reads read_file cfg.token_file d.token × (d ≡ record cfg { token = d.token }))
      (loaded_injective _ c last) (load_token-Reads read_file cfg.token_file token first, refl)

-- The checks and the tokens of a configuration that `build` has made.
loaded_iff :
    (order : Order) (read_file : Bytes → Result Bytes) (cfg c : Config)
    → ((validate order cfg >>= (λ u. load_tokens read_file cfg)) ≡ loaded c) ↔ (
        (check_fields order cfg.mode cfg ≡ loaded tt)
        × (check_credentials cfg ≡ loaded tt)
        × (load_by_mode read_file cfg.mode cfg ≡ loaded c))
unfolding validate load_tokens
loaded_iff order read_file cfg c = ground (
  arith,
  both_loaded (validate order cfg) (load_tokens read_file cfg) c,
  both_loaded (check_fields order cfg.mode cfg) (check_credentials cfg) tt,
)

load_mode :
    (order : Order) (read_file : Bytes → Result Bytes) (mode : Mode) (p : ParsedFlags) (c : Config)
    → Visits order
    → (skeleton mode p >>= (λ cfg. validate order cfg >>= (λ u. load_tokens read_file cfg)))
      ≡ loaded c
    → Accepts read_file mode p c
unfolding all_present require mode_eq
load_mode order read_file mode_relay p c v h =
    let cfg = relay_config p in
    let (fields, credentials, tokens) = (loaded_iff order read_file cfg c).0 h in
    let (exit, proxy, same) = relay_loads read_file cfg c tokens in
    let present = (relay_present order cfg v).0 fields in ground (arith, present, exit, proxy, same)
load_mode order read_file mode_exit p c v h =
    let cfg = exit_config p in
    let (fields, credentials, tokens) = (loaded_iff order read_file cfg c).0 h in
    let (token, same) = client_loads read_file cfg c tokens in ground (arith, fields, token, same)
load_mode order read_file mode_proxy p c v h =
    let cfg = proxy_config p in
    let (fields, credentials, tokens) = (loaded_iff order read_file cfg c).0 h in
    let (token, same) = client_loads read_file cfg c tokens in
    ground (arith, fields, credentials, token, same)
load_mode order read_file (Mode.other s) p c v h = cc

accept_mode :
    (order : Order) (read_file : Bytes → Result Bytes) (mode : Mode) (p : ParsedFlags) (c : Config)
    → Visits order
    → Accepts read_file mode p c
    → (skeleton mode p >>= (λ cfg. validate order cfg >>= (λ u. load_tokens read_file cfg)))
      ≡ loaded c
unfolding all_present require mode_eq
accept_mode order read_file mode_relay p c v
      (listen, cert, key, exit_file, proxy_file, exit, proxy, same) =
    (loaded_iff order read_file (relay_config p) c).1 (
      (relay_present order (relay_config p) v).1
          (ground (arith, listen, cert, key, exit_file, proxy_file)),
      refl,
      rw
          (
            Reads-load_token read_file p.exit_token_file c.exit_token exit,
            Reads-load_token read_file p.proxy_token_file c.proxy_token proxy,
          )
          (ap loaded (sym same)),
    )
accept_mode order read_file mode_exit p c v (relay, file, token, same) =
    (loaded_iff order read_file (exit_config p) c).1 (
      ground (arith, relay, file),
      refl,
      rw (Reads-load_token read_file p.token_file c.token token) (ap loaded (sym same)),
    )
accept_mode order read_file mode_proxy p c v (relay, file, credentials, token, same) =
    (loaded_iff order read_file (proxy_config p) c).1 (
      ground (arith, relay, file),
      ground (arith, credentials),
      rw (Reads-load_token read_file p.token_file c.token token) (ap loaded (sym same)),
    )
accept_mode order read_file (Mode.other s) p c v h = absurd h

-- `Load` returns a configuration, whatever order it visits the relay's fields in, exactly when the
-- flags and files satisfy the conditions of their mode and the configuration is the one these give.
pub load_iff :
    (order : Order) (read_file : Bytes → Result Bytes) (p : ParsedFlags) (c : Config)
    → Visits order
    → (load order read_file p ≡ loaded c) ↔ Accepts read_file p.mode p c
unfolding load build
load_iff order read_file p c v =
    (load_mode order read_file p.mode p c v, accept_mode order read_file p.mode p c v)
