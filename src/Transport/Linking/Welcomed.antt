-- ===== src/Transport/Linking/Welcomed.antt =====
-- What a session of `authenticate` rests on (internal/transport/authenticator.go).
use mhp.Prelude.{ℕ, ◌≡◌, refl, sym, ap, ◌∙◌, none, some, arith}
use mhp.Errors.{ok, wrap, mark, handshake_failed, exchange_failed}
use mhp.Transport.Conn.{
  Conn, Io, ◌>>=◌, ◌>>◌, done, lift, on_error, or_close, set_deadline, >>=-ok, on_error-ok,
  or_close-ok,
}
use mhp.Transport.Framing.{Codec, read_json, write_json}
use mhp.Transport.Records.{
  Hello, Response, Status, status_ok, status_error, unknown, validate_response,
}
use mhp.Transport.Tls.{DialEnv, dial_tls}
use mhp.Transport.Timing.{Timing}
use mhp.Transport.Handshake.{Session}
use mhp.Transport.Authenticator.{
  Authenticator, ClientEnv, hello_of, conclude, receive, exchange, authenticate,
}

dial_tls-secured :
    (env : DialEnv) (timing : Timing) (c d : Conn) (u : Unit {0})
    → dial_tls env timing c ≡ (ok u, d)
    → env.tls ≡ none
unfolding dial_tls
dial_tls-secured env timing c d u h = ground (arith, h)

module _ (hellos : Codec Hello) (responses : Codec Response) where
  -- The relay's answer was read from the connection and is valid.
  pub record Answered (d : Conn) (resp : Response) : Type 0 where
    pub after : Conn
    pub read : read_json responses d ≡ (ok resp, after)
    pub valid : validate_response resp ≡ ok tt
    pub accepted : resp.status ≡ status_ok

  conclude-ok :
      (env : ClientEnv) (resp : Response) (status : Status) (c d : Conn) (r : Response)
      → conclude hellos responses env resp status c ≡ (ok r, d)
      → (status ≡ status_ok) × (r ≡ resp)
  conclude-ok env resp status_ok c d r h = (refl, ground (arith, h))
  conclude-ok env resp status_error c d r h = cc (ap (λ q. q.0) h)
  conclude-ok env resp (unknown s) c d r h = cc (ap (λ q. q.0) h)

  receive-ok :
      (env : ClientEnv) (c c' : Conn) (resp : Response)
      → receive hellos responses env c ≡ (ok resp, c')
      → (d : Conn) × Answered d resp
  unfolding receive
  receive-ok env c c' resp h =
      let (r, d, got, rest) =
        >>=-ok (on_error (mark exchange_failed) (read_json responses))
          (λ r.
            on_error (wrap "transport: invalid response") (lift (validate_response r))
            >> conclude hellos responses env r r.status)
          c h in
      let (u, e, valid, told) =
        >>=-ok (on_error (wrap "transport: invalid response") (lift (validate_response r)))
          (λ _. conclude hellos responses env r r.status) d rest in
      let (accepted, same) = conclude-ok env r r.status e c' resp told in
      (
        c,
        record {
          after = d;
          read =
              on_error-ok (mark exchange_failed) (read_json responses) c got
              ∙ ap (λ q. (ok q, d)) (sym same);
          valid =
              ap validate_response same
              ∙ ap (λ q. q.0)
                  (on_error-ok (wrap "transport: invalid response") (lift (validate_response r)) d
                    valid);
          accepted = ap (λ q. q.status) same ∙ accepted;
        },
      )

  exchange-ok :
      (env : ClientEnv) (a : Authenticator) (c c' : Conn) (resp : Response)
      → exchange hellos responses env a c ≡ (ok resp, c')
      → (d : Conn) × Answered d resp
  unfolding exchange receive
  exchange-ok env a c c' resp h =
      let (u, d, armed, rest) =
        >>=-ok
          (on_error (wrap "transport: set setup deadline")
            (set_deadline env.arm (some a.timing.setup_timeout)))
          (λ _.
            on_error (mark exchange_failed) (write_json hellos (hello_of a))
            >> receive hellos responses env)
          c h in
      let (v, e, sent, told) =
        >>=-ok (on_error (mark exchange_failed) (write_json hellos (hello_of a)))
          (λ _. receive hellos responses env) d rest in
      receive-ok env e c' resp told

  -- A session that the relay has agreed to: TLS was up, the relay's answer was read from the
  -- connection, valid, and an acceptance, and the session has its identifier and the client's role.
  pub record Welcomed (env : ClientEnv) (a : Authenticator) (s : Session) : Type 0 where
    pub resp : Response
    pub conn : Conn
    pub answered : Answered conn resp
    pub secured : env.dial.tls ≡ none
    pub identified : s.id ≡ resp.session_id
    pub in_role : s.role ≡ a.role
    pub started : env.client ≡ ok s.mux

  pub authenticate-Welcomed :
      (env : ClientEnv) (a : Authenticator) (c c' : Conn) (s : Session)
      → authenticate hellos responses env a c ≡ (ok s, c')
      → Welcomed env a s
  unfolding authenticate
  authenticate-Welcomed env a c c' s h =
      let make : Response → ℕ → Session =
        λ resp mux. record { id = resp.session_id; mux = mux; role = a.role } in
      let start_client : Response → Io Session = λ resp.
        or_close (λ e. mark handshake_failed (wrap "transport: start client session" e))
          (lift env.client)
        >>= λ mux. done (make resp mux) in
      let (u, d, dialled, rest) =
        >>=-ok
          (on_error (λ e. wrap "transport" (wrap "transport: dial" e)) (dial_tls env.dial a.timing))
          (λ _. or_close (wrap "transport") (exchange hellos responses env a) >>= start_client) c
          h in
      let (resp, e, exchanged, starts) =
        >>=-ok (or_close (wrap "transport") (exchange hellos responses env a)) start_client d
          rest in
      let (mux, g, got, made) =
        >>=-ok
          (or_close (λ x. mark handshake_failed (wrap "transport: start client session" x))
            (lift env.client))
          (λ m. done (make resp m)) e starts in
      let (conn, answered) =
        exchange-ok env a d e resp
          (or_close-ok (wrap "transport") (exchange hellos responses env a) d exchanged) in
      let is : s ≡ make resp mux = ground (arith, made) in
      record {
        resp = resp;
        conn = conn;
        answered = answered;
        secured = dial_tls-secured env.dial a.timing c d u (
            on_error-ok (λ x. wrap "transport" (wrap "transport: dial" x))
              (dial_tls env.dial a.timing) c dialled);
        identified = ap (λ q. q.id) is;
        in_role = ap (λ q. q.role) is;
        started =
            ap (λ q. q.0)
              (or_close-ok (λ x. mark handshake_failed (wrap "transport: start client session" x))
                (lift env.client) e got)
            ∙ ap (λ q. ok q.mux) (sym is);
      }
