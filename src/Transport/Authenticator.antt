-- ===== src/Transport/Authenticator.antt =====
-- internal/transport/authenticator.go: the client's side of the authentication. (Its delays are in
-- Transport/Timing.)
use mhp.Prelude.{ℕ, Option, none, some, Bytes, is_empty, if◌then◌else◌, codes}
use mhp.Errors.{
  Error, Result, wrap, mark, detail, authentication, exchange_failed, handshake_failed,
}
use mhp.Config.{Mode}
use mhp.Transport.Conn.{Io, ◌>>=◌, ◌>>◌, done, fail, lift, on_error, or_close, ignore, set_deadline}
use mhp.Transport.Framing.{Codec, read_json, write_json}
use mhp.Transport.Records.{
  Hello, Response, Status, status_ok, status_error, unknown, hello_version, validate_response,
}
use mhp.Transport.Timing.{Timing}
use mhp.Transport.Tls.{DialEnv, dial_tls}
use mhp.Transport.Handshake.{Session}

-- The address, the server name and the roots of trust go to the network and to `crypto/tls`, whose
-- answers are in the environment.
pub record Authenticator : Type 0 where
  pub role : Mode
  pub token : Bytes
  pub timing : Timing

pub record ClientEnv : Type 0 where
  pub dial : DialEnv
  pub arm : Option Error
  pub clear : Option Error
  pub client : Result ℕ

abbrev pub hello_of : Authenticator → Hello
hello_of a = record { version = hello_version; role = a.role; token = a.token }

abbrev pub rejection : Bytes → Error
rejection code =
    detail authentication (if is_empty code then codes "authentication failed" else code)

module _ (hellos : Codec Hello) (responses : Codec Response) where
  -- The answer of the relay, once it is valid; every status but `ok` is a rejection.
  abbrev pub conclude : ClientEnv → Response → Status → Io Response
  conclude env resp status_ok = do ignore (set_deadline env.clear none); done resp
  conclude env resp status_error = fail (rejection resp.error_code)
  conclude env resp (unknown s) = fail (rejection resp.error_code)

  unfoldable pub receive : ClientEnv → Io Response
  receive env = do
    resp ← on_error (mark exchange_failed) (read_json responses)
    on_error (wrap "transport: invalid response") (lift (validate_response resp))
    conclude env resp resp.status

  unfoldable pub exchange : ClientEnv → Authenticator → Io Response
  exchange env a = do
    on_error (wrap "transport: set setup deadline")
        (set_deadline env.arm (some a.timing.setup_timeout))
    on_error (mark exchange_failed) (write_json hellos (hello_of a))
    receive env

  unfoldable pub authenticate : ClientEnv → Authenticator → Io Session
  authenticate env a = do
    on_error (λ e. wrap "transport" (wrap "transport: dial" e)) (dial_tls env.dial a.timing)
    resp ← or_close (wrap "transport") (exchange env a)
    mux ←
        or_close (λ e. mark handshake_failed (wrap "transport: start client session" e))
          (lift env.client)
    done (record { id = resp.session_id; mux = mux; role = a.role })
