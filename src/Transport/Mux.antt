-- ===== src/Transport/Mux.antt =====
-- internal/transport/yamux.go: the configuration of a yamux session, how one starts, and where the
-- lines of its log go.
pub mod Lines
use mhp.Prelude.{
  ℕ, ◌*◌, ◌%◌, ◌^◌, ◌≤◌, ◌<◌, ◌≡◌, refl, ℤ, pos, ltℤ, Bool, true, false, ◌==◌, ◌&&◌, is_empty,
  Option, none, some, List, [], ◌∷◌, Bytes, length, if◌then◌else◌, arith,
}
use Prim.Native.String.{String}
use mhp.Errors.{Error, Result, ok, err, wrap}
use mhp.Transport.Timing.{Timing, default_timing}

abbrev pub default_max_stream_bytes : ℕ
default_max_stream_bytes = 4194304

abbrev pub default_stream_concurrency : ℕ
default_stream_concurrency = 256

-- Where yamux writes its log: `io.Discard`, or a `slogWriter`.
pub data Output : Type 0 where
  discard slog_writer : Output

-- The fields of `yamux.Config` that the program sets; it leaves `Logger` nil.
pub record SessionConfig : Type 0 where
  pub accept_backlog : ℕ
  pub enable_keep_alive : Bool
  pub keep_alive_interval : ℤ
  pub connection_write_timeout : ℤ
  pub max_stream_window_size : ℕ  -- uint32
  pub stream_open_timeout : ℤ
  pub stream_close_timeout : ℤ
  pub log_output : Output

-- `has_log` is `log != nil`.
unfoldable pub build_session_config : Timing → Bool → SessionConfig
build_session_config timing has_log = record {
  accept_backlog = default_stream_concurrency;
  enable_keep_alive = true;
  keep_alive_interval = timing.keep_alive_interval;
  connection_write_timeout = timing.ping_timeout;
  max_stream_window_size = default_max_stream_bytes % 2 ^ 32;
  stream_open_timeout = timing.stream_open_timeout;
  stream_close_timeout = timing.drain_timeout;
  log_output = if has_log then slog_writer else discard;
}

abbrev started : String → Result ℕ → Result ℕ
started text (ok session) = ok session
started text (err e) = err (wrap text e)

-- `client` is `yamux.Client` on the connection.
unfoldable pub new_client_session : (SessionConfig → Result ℕ) → Timing → Bool → Result ℕ
unfolding build_session_config
new_client_session client timing has_log =
    started "transport: start client session" (client (build_session_config timing has_log))

-- `server` is `yamux.Server` on the connection.
unfoldable pub new_server_session : (SessionConfig → Result ℕ) → Timing → Bool → Result ℕ
unfolding build_session_config
new_server_session server timing has_log =
    started "transport: start server session" (server (build_session_config timing has_log))

-- `strings.TrimRight(s, "\n")`.
unfoldable pub trim_line_feeds : Bytes → Bytes
trim_line_feeds [] = []
trim_line_feeds (b ∷ bs) =
    let rest = trim_line_feeds bs in if is_empty rest && (b == 10) then [] else b ∷ rest

-- `slogWriter.Write`: what it returns, and the lines at debug level, newest first.
unfoldable pub slog_write : Bytes → List Bytes → (ℕ × Option Error) × List Bytes
unfolding trim_line_feeds
slog_write p lines =
    let msg = trim_line_feeds p in ((length p, none), if is_empty msg then lines else msg ∷ lines)

-- What `yamux.VerifyConfig` documents of the fields above.
pub record IsValid (c : SessionConfig) : Type 0 where
  pub backlog : 0 < c.accept_backlog
  pub keep_alive : ltℤ (pos 0) c.keep_alive_interval ≡ true
  pub window : 256 * 1024 ≤ c.max_stream_window_size

-- A timing whose keep-alive interval is positive gives a configuration that yamux takes.
pub build_session_config-IsValid :
    (timing : Timing) (has_log : Bool)
    → ltℤ (pos 0) timing.keep_alive_interval ≡ true
    → IsValid (build_session_config timing has_log)
unfolding build_session_config
build_session_config-IsValid timing has_log h = record {
  backlog = omega arith;
  keep_alive = h;
  window = omega arith;
}

default-IsValid : IsValid (build_session_config default_timing true)
default-IsValid = build_session_config-IsValid default_timing true refl
