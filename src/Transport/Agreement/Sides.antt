-- ===== src/Transport/Agreement/Sides.antt =====
-- Each side alone, on a connection whose writes go through.
use mhp.Prelude.{ℕ, ◌≡◌, refl, ap, ◌∙◌, none, some, Bytes, [], ◌∷◌, ◌++◌, codes}
use mhp.Errors.{Error, ok, err, wrap, mark, exchange_failed}
use mhp.Transport.Conn.{Conn, on_error, lift, ◌>>◌}
use mhp.Transport.Conn.Keeps.{Keeps, >>=-Keeps, on_error-Keeps}
use mhp.Transport.Framing.{Codec, read_json}
use mhp.Transport.Framing.RoundTrip.{frame}
use mhp.Transport.Framing.Keeps.{read_json-Keeps}
use mhp.Transport.Records.{
  Hello, Response, Status, status_ok, status_error, unknown, validate_hello, validate_response,
}
use mhp.Transport.Handshake.{
  Verifier, verify, ServerEnv, acceptance, refusal, session_of, accept, reject, admit, vet,
  converse, write_verdict,
}
use mhp.Transport.Authenticator.{Authenticator, ClientEnv, hello_of, conclude, receive, exchange}
use mhp.Transport.Agreement.Codecs.{Carries, write_json-frame, read_json-frame}

module _ (hellos : Codec Hello) (responses : Codec Response) where
  abbrev sent : Conn → Bytes
  sent c = c.output

  conclude-sent :
      (env : ClientEnv) (resp : Response) (s : Status)
      → env.clear ≡ none
      → Keeps sent (conclude hellos responses env resp s)
  conclude-sent env resp status_ok h c = rw h refl
  conclude-sent env resp status_error h c = refl
  conclude-sent env resp (unknown s) h c = refl

  receive-sent : (env : ClientEnv) → env.clear ≡ none → Keeps sent (receive hellos responses env)
  unfolding receive
  receive-sent env h =
      >>=-Keeps sent (on_error (mark exchange_failed) (read_json responses))
        (λ resp.
          on_error (wrap "transport: invalid response") (lift (validate_response resp))
          >> conclude hellos responses env resp resp.status)
        (on_error-Keeps sent (mark exchange_failed) (read_json responses)
          (read_json-Keeps sent (λ _ _. refl) responses))
        λ resp.
          >>=-Keeps sent
            (on_error (wrap "transport: invalid response") (lift (validate_response resp)))
            (λ _. conclude hellos responses env resp resp.status)
            (on_error-Keeps sent (wrap "transport: invalid response")
              (lift (validate_response resp)) (λ _. refl))
            (λ _. conclude-sent env resp resp.status h)

  -- The client arms the setup deadline, sends its hello, and goes on to wait for the verdict.
  pub exchange_lem :
      (env : ClientEnv) (a : Authenticator) (k : Carries hellos (hello_of a)) (c : Conn)
      → env.arm ≡ none
      → c.writes ≡ []
      → exchange hellos responses env a c
        ≡ receive hellos responses env (record c {
          deadline = some a.timing.setup_timeout;
          deadlines = some a.timing.setup_timeout ∷ c.deadlines;
          output = c.output ++ frame k.bytes;
          writes = [];
        })
  unfolding exchange
  exchange_lem env a k c h w = rw (
    h,
    write_json-frame hellos (hello_of a) k
        (record c {
          deadline = some a.timing.setup_timeout;
          deadlines = some a.timing.setup_timeout ∷ c.deadlines;
        })
        w,
  )

  -- What it sends does not depend on the answer.
  pub exchange-sent :
      (env : ClientEnv) (a : Authenticator) (k : Carries hellos (hello_of a)) (c : Conn)
      → env.arm ≡ none
      → env.clear ≡ none
      → c.writes ≡ []
      → (exchange hellos responses env a c).1.output ≡ c.output ++ frame k.bytes
  exchange-sent env a k c h l w =
      ap (λ q. q.1.output) (exchange_lem env a k c h w) ∙ receive-sent env l _

  pub receive_lem :
      (env : ClientEnv) (resp : Response) (k : Carries responses resp) (c : Conn)
      → validate_response resp ≡ ok tt
      → c.input ≡ frame k.bytes
      → receive hellos responses env c
        ≡ conclude hellos responses env resp resp.status (record c { input = [] })
  unfolding receive
  receive_lem env resp k c valid e = rw (read_json-frame responses resp k c e, valid)

  -- The relay reads the hello and checks it.
  pub converse_lem :
      (env : ServerEnv) (v : Verifier) (hello : Hello) (k : Carries hellos hello) (c : Conn)
      → validate_hello hello ≡ ok tt
      → c.input ≡ frame k.bytes
      → converse hellos responses env v c
        ≡ admit hellos responses env hello
            (verify v hello.role hello.token)
            (record c { input = [] })
  unfolding converse vet
  converse_lem env v hello k c valid e = rw (read_json-frame hellos hello k c e, valid)

  pub accept_lem :
      (env : ServerEnv) (hello : Hello) (k : Carries responses (acceptance env)) (c : Conn)
      (mux : ℕ)
      → c.writes ≡ []
      → env.server ≡ ok mux
      → accept hellos responses env hello c ≡ (
        ok (session_of env hello mux),
        record c { output = c.output ++ frame k.bytes; writes = [] },
      )
  unfolding accept
  accept_lem env hello k c mux w m = rw (write_json-frame responses (acceptance env) k c w, m)

  pub reject_lem :
      (e : Error) (k : Carries responses (refusal (codes "authentication_failed"))) (c : Conn)
      → c.writes ≡ []
      → reject hellos responses e c ≡ (
        err (wrap "transport: verify" e),
        record c { output = c.output ++ frame k.bytes; writes = [] },
      )
  unfolding reject write_verdict
  reject_lem e k c w =
      rw (write_json-frame responses (refusal (codes "authentication_failed")) k c w)
