-- ===== src/Command/Configured/Tests.antt =====
-- An exit-node and a relay from their token files to the session.
use mathlib.Core.List.{reverse_perm}
use mhp.Prelude.{◌↔◌, refl, Bytes, ◌∷◌, codes, arith, bytes_eq}
use mhp.Config.{mode_exit}
use mhp.Transport.Conn.{read_full, write}
use mhp.Transport.Framing.{be_uint32, put_uint32, read_frame, write_frame, read_json, write_json}
use mhp.Transport.Records.{validate_hello, validate_response, hex_digit, new_session_id}
use mhp.Transport.Timing.{default_timing}
use mhp.Transport.Tls.{listen_tls}
use mhp.Transport.Handshake.{verify, accept, vet, converse, handshake}
use mhp.Transport.Authenticator.{Authenticator, hello_of, exchange, receive}
use mhp.Transport.Agreement.Codecs.{Carries}
use mhp.Transport.Agreement.Outcome.{Wired}
use mhp.Transport.Agreement.Tests.{
  hellos, responses, client_env, relay_env, conn, accepted_frame, acceptance_carried,
  refusal_carried,
}
use mhp.Command.{verifier_of, authenticator_of}
use mhp.Command.Configured.{Configured, Agree, Linked, linked_iff}
use mhp.Command.Tests.{
  order, read_file, relay_flags, exit_flags, relay, client, relay_loads, client_loads,
}

abbrev who : Authenticator
who = record { role = mode_exit; token = codes "key"; timing = default_timing }

abbrev hello_frame : Bytes
hello_frame = 0 ∷ 0 ∷ 0 ∷ 5 ∷ 1 ∷ 1 ∷ codes "key"

hello_carried : Carries hellos (hello_of who)
hello_carried = record {
  bytes = 1 ∷ 1 ∷ codes "key";
  marshals = refl;
  unmarshals = refl;
  fits = omega arith;
}

key-Wired :
    Wired hellos responses client_env relay_env default_timing who
      (verifier_of relay)
      (conn accepted_frame)
      (conn hello_frame)
unfolding exchange receive handshake converse vet accept listen_tls write_json read_json write_frame
    read_frame write read_full put_uint32 be_uint32 verify bytes_eq validate_hello validate_response
    new_session_id hex_digit verifier_of
key-Wired = record {
  client_arm = refl;
  client_clear = refl;
  relay_arm = refl;
  relay_tls = refl;
  relay_clear = refl;
  client_writes = refl;
  client_fresh = refl;
  relay_writes = refl;
  relay_fresh = refl;
  upstream = refl;
  downstream = refl;
}

key-Configured : Configured relay client mode_exit (codes "key\n") (codes "key")
unfolding bytes_eq
key-Configured = record {
  relay_order = order;
  client_order = order;
  relay_file = read_file;
  client_file = read_file;
  relay_flags = relay_flags;
  client_flags = exit_flags;
  relay_visits = λ fields. reverse_perm fields;
  client_visits = λ fields. reverse_perm fields;
  relay_mode = refl;
  client_mode = refl;
  relay_loads = relay_loads;
  client_loads = client_loads;
  relay_reads = refl;
  client_reads = refl;
}

linked_iff_example :
    Linked hellos responses client_env relay_env who
      (verifier_of relay)
      (conn accepted_frame)
      (conn hello_frame)
      9
    ↔ Agree (codes "key\n") (codes "key")
unfolding authenticator_of
linked_iff_example =
    linked_iff hellos responses client_env relay_env relay client mode_exit (conn accepted_frame)
      (conn hello_frame) 9 (codes "key\n") (codes "key") hello_carried acceptance_carried
      refusal_carried key-Wired refl refl key-Configured
