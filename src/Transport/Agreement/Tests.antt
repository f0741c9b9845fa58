-- ===== src/Transport/Agreement/Tests.antt =====
-- A small codec in place of `encoding/json`, a client and a relay, and the theorems about them.
use mhp.Prelude.{
  ℕ, zero, suc, ◌≡◌, ◌↔◌, refl, inl, none, some, Bytes, [], ◌∷◌, ◌++◌, length, take, drop, codes,
  arith, All, bytes_eq, is_empty, false,
}
use mhp.Errors.{
  Result, ok, err, sentinel, other, eof, wrap, detail, authentication, wrong_token, mark,
  recv_failure,
}
use mhp.Config.{Mode, mode_exit, mode_proxy}
use mhp.Transport.Conn.{Conn, ◌>>=◌, on_error, read_full, write}
use mhp.Transport.Framing.{
  Codec, be_uint32, put_uint32, read_frame, write_frame, read_json, write_json,
}
use mhp.Transport.Records.{
  Hello, Response, Status, status_ok, status_error, validate_hello, validate_response, hex_digit,
  new_session_id,
}
use mhp.Transport.Timing.{default_timing}
use mhp.Transport.Tls.{listen_tls}
use mhp.Transport.Handshake.{
  Verifier, verify, Session, ServerEnv, acceptance, refusal, session_of, write_verdict, accept,
  reject, vet, converse, handshake, connects, serves, run,
}
use mhp.Transport.Handshake.Verifier.{verify_iff, Authentic, handshake-Authentic}
use mhp.Transport.Handshake.Deadline.{handshake_unbounded}
use mhp.Transport.Handshake.Accepting.{IsRefused, IsClosed, turned_away, run_serves}
use mhp.Transport.Authenticator.{Authenticator, ClientEnv, hello_of, exchange, receive}
use mhp.Transport.Agreement.Codecs.{Carries}
use mhp.Transport.Agreement.Outcome.{Wired, authentication_failed, agreement, agreement_refused}

abbrev no_json {ℓ} : {A : Type ℓ} → Result A
no_json = err (sentinel (other 0))

abbrev put_role : Mode → Bytes → Result Bytes
put_role mode_exit token = ok (1 ∷ 1 ∷ token)
put_role mode_proxy token = ok (1 ∷ 2 ∷ token)
put_role _ token = no_json

abbrev get_hello : Bytes → Result Hello
get_hello (v ∷ zero ∷ token) = no_json
get_hello (v ∷ suc zero ∷ token) = ok (record { version = v; role = mode_exit; token = token })
get_hello (v ∷ suc (suc t) ∷ token) = ok (record { version = v; role = mode_proxy; token = token })
get_hello _ = no_json

-- Hellos of version 1.
abbrev pub hellos : Codec Hello
hellos = record { marshal = λ h. put_role h.role h.token; unmarshal = get_hello }

abbrev put_status : Status → Bytes → Result Bytes
put_status status_ok rest = ok (1 ∷ rest)
put_status status_error rest = ok (0 ∷ rest)
put_status _ rest = no_json

abbrev get_status : ℕ → Status
get_status zero = status_error
get_status (suc n) = status_ok

abbrev get_response : Bytes → Result Response
get_response (t ∷ n ∷ rest) = ok (record {
  version = 1;
  status = get_status t;
  session_id = take n rest;
  error_code = drop n rest;
})
get_response _ = no_json

abbrev pub responses : Codec Response
responses = record {
  marshal = λ r. put_status r.status (length r.session_id ∷ (r.session_id ++ r.error_code));
  unmarshal = get_response;
}

abbrev pub client_env : ClientEnv
client_env = record {
  dial = record { dial = none; arm = none; tls = none; clear = none };
  arm = none;
  clear = none;
  client = ok 3;
}

abbrev pub relay_env : ServerEnv
relay_env = record {
  listen = record { arm = none; tls = none; clear = none };
  random = 0xab ∷ 5 ∷ [];
  server = ok 9;
}

-- The relay expects "pass" of the exit node.
abbrev pub verifier : Verifier
verifier mode_exit = some (codes "pass")
verifier _ = none

abbrev pub exit_with : Bytes → Authenticator
exit_with token = record { role = mode_exit; token = token; timing = default_timing }

abbrev pub conn : Bytes → Conn
conn input = record {
  input = input;
  input_end = sentinel eof;
  writes = [];
  output = [];
  deadline = none;
  deadlines = [];
  closed = false;
}

abbrev pub hello_frame : Bytes → Bytes
hello_frame token = 0 ∷ 0 ∷ 0 ∷ 6 ∷ 1 ∷ 1 ∷ token

-- The identifier of the random bytes is "ab05".
abbrev pub accepted_frame : Bytes
accepted_frame = 0 ∷ 0 ∷ 0 ∷ 6 ∷ 1 ∷ 4 ∷ codes "ab05"

abbrev refused_frame : Bytes
refused_frame = 0 ∷ 0 ∷ 0 ∷ 23 ∷ 0 ∷ 0 ∷ authentication_failed

hello_carried : (token : Bytes) → length token ≡ 4 → Carries hellos (hello_of (exit_with token))
hello_carried token h = record {
  bytes = 1 ∷ 1 ∷ token;
  marshals = refl;
  unmarshals = refl;
  fits = omega arith;
}

accepted-Wired :
    Wired hellos responses client_env relay_env default_timing
      (exit_with (codes "pass"))
      verifier
      (conn accepted_frame)
      (conn (hello_frame (codes "pass")))
unfolding exchange receive handshake converse vet accept listen_tls write_json read_json write_frame
    read_frame write read_full put_uint32 be_uint32 verify bytes_eq validate_hello validate_response
    new_session_id hex_digit
accepted-Wired = record {
  client_arm = refl;
  client_clear = refl;
  relay_arm = refl;
  relay_tls = refl;
  relay_clear = refl;
  client_writes = refl;
  client_fresh = refl;
  relay_writes = refl;
  relay_fresh = refl;
  upstream = refl;
  downstream = refl;
}

refused-Wired :
    Wired hellos responses client_env relay_env default_timing
      (exit_with (codes "oops"))
      verifier
      (conn refused_frame)
      (conn (hello_frame (codes "oops")))
unfolding exchange receive handshake converse vet reject write_verdict listen_tls write_json
    read_json write_frame read_frame write read_full put_uint32 be_uint32 verify bytes_eq
    validate_hello validate_response
refused-Wired = record {
  client_arm = refl;
  client_clear = refl;
  relay_arm = refl;
  relay_tls = refl;
  relay_clear = refl;
  client_writes = refl;
  client_fresh = refl;
  relay_writes = refl;
  relay_fresh = refl;
  upstream = refl;
  downstream = refl;
}

pub acceptance_carried : Carries responses (acceptance relay_env)
unfolding new_session_id hex_digit
acceptance_carried = record {
  bytes = 1 ∷ 4 ∷ codes "ab05";
  marshals = refl;
  unmarshals = refl;
  fits = omega arith;
}

pub refusal_carried : Carries responses (refusal authentication_failed)
refusal_carried = record {
  bytes = 0 ∷ 0 ∷ authentication_failed;
  marshals = refl;
  unmarshals = refl;
  fits = omega arith;
}

agreement_example :
    ((handshake hellos responses relay_env default_timing verifier
        (conn (hello_frame (codes "pass")))).0
      ≡ ok (session_of relay_env (hello_of (exit_with (codes "pass"))) 9))
    × ((exchange hellos responses client_env (exit_with (codes "pass")) (conn accepted_frame)).0
        ≡ ok (acceptance relay_env))
    × ((exchange hellos responses client_env
          (exit_with (codes "pass"))
          (conn accepted_frame)).1.deadline
        ≡ none)
unfolding verify bytes_eq
agreement_example =
    agreement hellos responses client_env relay_env default_timing (exit_with (codes "pass"))
      verifier (conn accepted_frame) (conn (hello_frame (codes "pass"))) 9
      (hello_carried (codes "pass") refl) acceptance_carried accepted-Wired (inl refl) refl refl

agreement_refused_example :
    ((handshake hellos responses relay_env default_timing verifier
        (conn (hello_frame (codes "oops")))).0
      ≡ err (wrap "transport: verify" (sentinel wrong_token)))
    × ((exchange hellos responses client_env (exit_with (codes "oops")) (conn refused_frame)).0
        ≡ err (detail authentication authentication_failed))
unfolding verify bytes_eq
agreement_refused_example =
    agreement_refused hellos responses client_env relay_env default_timing
      (exit_with (codes "oops")) verifier (conn refused_frame) (conn (hello_frame (codes "oops")))
      (sentinel wrong_token) (hello_carried (codes "oops") refl) refusal_carried refused-Wired
      (inl refl) refl

verify_iff_at_input :
    (verify verifier mode_exit (codes "pass") ≡ ok tt)
    ↔ ((verifier mode_exit ≡ some (codes "pass")) × (is_empty (codes "pass") ≡ false))
verify_iff_at_input = verify_iff verifier mode_exit (codes "pass")

abbrev pub exit_session : Session
exit_session = session_of relay_env (hello_of (exit_with (codes "pass"))) 9

abbrev pub served : Conn
served = record (conn []) {
  output = accepted_frame;
  deadlines = none ∷ some default_timing.handshake_timeout ∷ [];
}

pub exit_served :
    handshake hellos responses relay_env default_timing verifier (conn (hello_frame (codes "pass")))
    ≡ (ok exit_session, served)
unfolding handshake converse vet accept listen_tls write_json read_json write_frame read_frame write
    read_full put_uint32 be_uint32 verify bytes_eq validate_hello new_session_id hex_digit
exit_served = refl

handshake-Authentic_example :
    Authentic hellos responses relay_env default_timing verifier
      (conn (hello_frame (codes "pass")))
      exit_session
handshake-Authentic_example =
    handshake-Authentic hellos responses relay_env default_timing verifier
      (conn (hello_frame (codes "pass"))) served exit_session exit_served

handshake_unbounded_example :
    (handshake hellos responses relay_env default_timing verifier (conn (1 ∷ []))
      ≡ (on_error (mark recv_failure) (read_json hellos)
            >>= vet hellos responses relay_env verifier)
          (record (conn (1 ∷ [])) {
            deadlines = none ∷ some default_timing.handshake_timeout ∷ [];
          }))
    × ((handshake hellos responses relay_env default_timing verifier (conn (1 ∷ []))).1.deadline
        ≡ none)
    × ((handshake hellos responses relay_env default_timing verifier (conn (1 ∷ []))).1.deadlines
        ≡ none ∷ some default_timing.handshake_timeout ∷ [])
handshake_unbounded_example =
    handshake_unbounded hellos responses relay_env default_timing verifier (conn (1 ∷ [])) refl refl
      refl

-- A client with a wrong token comes first.
oops-IsRefused :
    IsRefused hellos responses default_timing verifier
      (connects relay_env (conn (hello_frame (codes "oops"))))
unfolding handshake converse vet reject write_verdict listen_tls write_json read_json write_frame
    read_frame write read_full put_uint32 be_uint32 verify bytes_eq validate_hello
oops-IsRefused = (wrap "transport: verify" (sentinel wrong_token), refl)

run_serves_example :
    let out = run hellos responses default_timing verifier (
      connects relay_env (conn (hello_frame (codes "oops")))
      ∷ connects relay_env (conn (hello_frame (codes "pass")))
      ∷ []) in
    (out.0 ≡ serves exit_session served)
    × (out.1
        ≡ turned_away hellos responses default_timing verifier
            (connects relay_env (conn (hello_frame (codes "oops"))) ∷ []))
    × All IsClosed out.1
run_serves_example =
    run_serves hellos responses default_timing verifier
      (connects relay_env (conn (hello_frame (codes "oops"))) ∷ []) [] relay_env
      (conn (hello_frame (codes "pass"))) served exit_session (oops-IsRefused, tt) exit_served
