-- ===== src/Transport/Tls.antt =====
-- internal/transport/tls.go. What the network and `crypto/tls` answer is part of the environment:
-- the error of each call, if any. A TLS connection and the socket under it share one state.
use mhp.Prelude.{Bool, Bytes, Option, none, some, if◌then◌else◌}
use mhp.Errors.{
  Error, Result, ok, err, detail, untrusted_ca, wrap, mark, dial_failed, handshake_failed,
}
use mhp.Transport.Conn.{Io, ◌>>◌, set_deadline, outcome, or_close, on_error}
use mhp.Transport.Timing.{Timing}

-- The answers to the calls of `dialTLS`.
pub record DialEnv : Type 0 where
  pub dial : Option Error
  pub arm : Option Error
  pub tls : Option Error
  pub clear : Option Error

unfoldable pub dial_tls : DialEnv → Timing → Io (Unit {0})
dial_tls env timing = do
  on_error (mark dial_failed) (outcome env.dial)
  or_close (mark dial_failed) (set_deadline env.arm (some timing.dial_timeout))
  or_close (mark handshake_failed) (outcome env.tls)
  or_close (mark dial_failed) (set_deadline env.clear none)

-- The answers to the calls of `listenTLS`.
pub record ListenEnv : Type 0 where
  pub arm : Option Error
  pub tls : Option Error
  pub clear : Option Error

unfoldable pub listen_tls : ListenEnv → Timing → Io (Unit {0})
listen_tls env timing = do
  or_close (wrap "transport: set handshake deadline")
      (set_deadline env.arm (some timing.handshake_timeout))
  or_close (wrap "transport: TLS handshake") (outcome env.tls)
  or_close (wrap "transport: clear deadline") (set_deadline env.clear none)

abbrev pool_of : (Bytes → Bool) → Bytes → Result Bytes → Result Bytes
pool_of append_certs path (err e) = err (wrap "transport: read CA file" e)
pool_of append_certs path (ok pem) =
    if append_certs pem then ok pem else err (detail untrusted_ca path)

-- `LoadTrustPool`: the pool is the text of the file that it holds the certificates of. `read_file` is
-- `os.ReadFile`; `append_certs` says whether `AppendCertsFromPEM` found a certificate.
unfoldable pub load_trust_pool : (Bytes → Result Bytes) → (Bytes → Bool) → Bytes → Result Bytes
load_trust_pool read_file append_certs path = pool_of append_certs path (read_file path)
