-- ===== src/Transport/Linking/Tests.antt =====
-- A connector whose first attempt fails.
use mhp.Prelude.{◌≡◌, refl, some, List, [], ◌∷◌, codes, bytes_eq}
use mhp.Errors.{is}
use mhp.Transport.Conn.{read_full, write}
use mhp.Transport.Framing.{be_uint32, put_uint32, read_frame, write_frame, read_json, write_json}
use mhp.Transport.Records.{validate_response}
use mhp.Transport.Tls.{dial_tls}
use mhp.Transport.Authenticator.{Authenticator, exchange, receive, authenticate}
use mhp.Transport.Connector.{start, snapshot, advance, step}
use mhp.Transport.Agreement.Tests.{hellos, responses, client_env, conn, accepted_frame, exit_with}
use mhp.Transport.Linking.{Moment, attempts, waits_over, event_of, run}
use mhp.Transport.Linking.Published.{Shown, IsWelcome, snapshot-IsWelcome}

abbrev who : Authenticator
who = exit_with (codes "pass")

abbrev moments : List Moment
moments =
    attempts client_env (conn []) ∷ waits_over ∷ attempts client_env (conn accepted_frame) ∷ []

shows_link : snapshot (run hellos responses who (start who.timing) moments) ≡ some 3
unfolding run event_of step advance start snapshot authenticate dial_tls exchange receive write_json
    read_json write_frame read_frame write read_full put_uint32 be_uint32 validate_response is
    bytes_eq
shows_link = refl

snapshot-IsWelcome_example :
    Shown
      (IsWelcome hellos responses who moments)
      (snapshot (run hellos responses who (start who.timing) moments))
snapshot-IsWelcome_example = snapshot-IsWelcome hellos responses who moments
