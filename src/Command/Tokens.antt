-- ===== src/Command/Tokens.antt =====
-- Which clients the relay lets in, from the token files on (cmd/mhp/main.go, internal/config,
-- internal/transport/handshake.go).
use mathlib.Core.Path.{subst}
use mhp.Prelude.{
  ◌≡◌, ◌↔◌, sym, ap, ◌∙◌, Bool, true, false, some, [], Bytes, is_empty, bytes_eq_iff, arith,
}
use mhp.Errors.{Result, ok}
use mhp.Config.{Mode, mode_relay, mode_exit, mode_proxy}
use mhp.Config.Space.{trim_space}
use mhp.Config.Load.{Config, ParsedFlags, Secret, Order, loaded, load}
use mhp.Config.Load.Accepts.{Accepts, Reads, Visits, load_iff}
use mhp.Transport.Handshake.{verify, check_token}
use mhp.Command.{verifier_of, authenticator_of}

-- The file of the relay with the bearer of a role.
abbrev pub bearer_file : ParsedFlags → Mode → Bytes
bearer_file p mode_exit = p.exit_token_file
bearer_file p mode_proxy = p.proxy_token_file
bearer_file p role = []

abbrev pub is_client : Mode → Bool
is_client mode_exit = true
is_client mode_proxy = true
is_client role = false

content-Reads :
    (read_file : Bytes → Result Bytes) (path a : Bytes) (s : Secret)
    → read_file path ≡ ok a
    → Reads read_file path s
    → s.content ≡ trim_space a
content-Reads read_file path a s h (content, k, same) =
    let eq : content ≡ a = cc (sym k ∙ h) in same ∙ ap trim_space eq

verifier_of-Accepts :
    (read_file : Bytes → Result Bytes) (p : ParsedFlags) (c : Config) (role : Mode) (a : Bytes)
    → is_client role ≡ true
    → Accepts read_file mode_relay p c
    → read_file (bearer_file p role) ≡ ok a
    → verifier_of c role ≡ some (trim_space a)
unfolding verifier_of
verifier_of-Accepts read_file p c mode_exit a k (_, _, _, _, _, exit, _, _) h =
    ap some (content-Reads read_file p.exit_token_file a c.exit_token h exit)
verifier_of-Accepts read_file p c mode_proxy a k (_, _, _, _, _, _, proxy, _) h =
    ap some (content-Reads read_file p.proxy_token_file a c.proxy_token h proxy)
verifier_of-Accepts read_file p c mode_relay a k accepts h = cc
verifier_of-Accepts read_file p c (Mode.other s) a k accepts h = cc

token-Accepts :
    (read_file : Bytes → Result Bytes) (p : ParsedFlags) (c : Config) (role : Mode) (b : Bytes)
    → is_client role ≡ true
    → Accepts read_file role p c
    → read_file p.token_file ≡ ok b
    → c.token.content ≡ trim_space b
token-Accepts read_file p c mode_exit b k (_, _, token, _) h =
    content-Reads read_file p.token_file b c.token h token
token-Accepts read_file p c mode_proxy b k (_, _, _, token, _) h =
    content-Reads read_file p.token_file b c.token h token
token-Accepts read_file p c mode_relay b k accepts h = cc
token-Accepts read_file p c (Mode.other s) b k accepts h = cc

check_token_iff :
    (x token : Bytes)
    → (check_token token (some x) ≡ ok tt) ↔ ((token ≡ x) × (is_empty token ≡ false))
check_token_iff x token = ground (arith, bytes_eq_iff token x)

-- An exit-node or proxy that presents the token of its file, to a relay with the token files of its
-- own, passes the relay's check exactly when the two files of this role have the same content but
-- for white space around it, and not only white space. (Both commands load their configuration also
-- where the files are empty; no client is accepted then.)
pub verify-load :
    (relay_order client_order : Order) (relay_file client_file : Bytes → Result Bytes)
    (relay_flags client_flags : ParsedFlags) (relay client : Config) (a b : Bytes)
    → Visits relay_order
    → Visits client_order
    → relay_flags.mode ≡ mode_relay
    → is_client client_flags.mode ≡ true
    → load relay_order relay_file relay_flags ≡ loaded relay
    → load client_order client_file client_flags ≡ loaded client
    → relay_file (bearer_file relay_flags client_flags.mode) ≡ ok a
    → client_file client_flags.token_file ≡ ok b
    → (verify
          (verifier_of relay)
          client_flags.mode
          (authenticator_of client client_flags.mode).token
        ≡ ok tt)
      ↔ ((trim_space b ≡ trim_space a) × (is_empty (trim_space b) ≡ false))
unfolding verify authenticator_of
verify-load relay_order client_order relay_file client_file relay_flags client_flags relay client a
      b v w is_relay k loads_relay loads_client at_relay at_client =
    let role = client_flags.mode in
    let of_relay =
      subst (λ m. Accepts relay_file m relay_flags relay) is_relay
        ((load_iff relay_order relay_file relay_flags relay v).0 loads_relay) in
    let of_client = (load_iff client_order client_file client_flags client w).0 loads_client in
    rw
      (
        verifier_of-Accepts relay_file relay_flags relay role a k of_relay at_relay,
        token-Accepts client_file client_flags client role b k of_client at_client,
      )
      (check_token_iff (trim_space a) (trim_space b))
