-- ===== src/Lib.antt =====
-- mhp relays web traffic: a proxy and an exit connect to a relay, and the relay pairs the streams of
-- the proxy with streams to the exit, which dials the destinations.
--
-- Connecting: both clients and the relay speak the protocol of internal/transport. A client dials
-- (tls.go: dialTLS), sends a hello and waits for the verdict (authenticator.go: exchange, authenticate);
-- the relay accepts sockets one by one (handshake.go: Run), completes TLS (tls.go: listenTLS), reads the
-- hello, verifies the token of its role and answers (handshake, verify, writeVerdict). Records travel as
-- length-prefixed frames (framing.go, records.go). A client reconnects by connector.go: Run, with the
-- schedule of timing.go.
-- Relaying: the relay keeps the current session of each role under a generation (internal/relay/
-- registry.go) and pairs streams (bridge.go), which internal/stream/duplex.go copies in both
-- directions; service.go runs a goroutine for each session and ends them. The proxy (internal/proxy/
-- listener.go) admits browser connections and opens a relay stream for each request. The exit takes
-- the streams of its current session (internal/exit/broker.go), serves SOCKS on each (handler.go),
-- resolves names (resolver.go) and asks access.go before it dials. cmd/mhp/main.go turns flags and token
-- files (internal/config/config.go) and the logging of internal/logging into a run of one role.
--
-- Prelude, Errors: numbers, lists, int64 arithmetic; Go errors as errors.Is sees them.
-- Config: config.go. Mode is the role; Config.Load is Load with build, validate, loadTokens, and
--   Config.Space is the trimming of token files.
-- Transport.Conn: a connection as the bytes that the peer sends, a script of what each Write does, the
--   bytes sent, the deadline and those set before, and whether it is closed. Code that uses it is a
--   function of this state.
-- Transport.Framing (readFrame, writeFrame, readJSON, writeJSON), Transport.Records (Hello, Response,
--   their validation, newSessionID), Transport.Tls, Transport.Handshake (Verifier, handshake, Run),
--   Transport.Authenticator (exchange, authenticate), Transport.Timing (Timing, validate, backoff),
--   Transport.Connector (Run, Snapshot, clearIf): the files of internal/transport of these names.
--   Transport.Agreement puts the two sides of the handshake together. Transport.Mux: yamux.go.
--   Transport.Linking is the connector over the attempts of authenticate.
-- Transport.Retry: Run of authenticator.go. Transport.Session: session.go, where a session ends.
-- Relay.Registry, Relay.Bridge, Relay.Service: registry.go, bridge.go and service.go; each call under a
--   mutex is one step. Relay.Service.Spec is the session that each role should have, and
--   Relay.Service.Accepting the accept loop over the handshakes. Relay.System is the service with the
--   bridge that its serve loops share, and Relay.Pair the goroutines of one pair, with counterConn.
-- Stream.Duplex: duplex.go, whose select loop is a function of what its channels deliver. Its deferred
--   loop waits for the workers: a worker ends when both connections are past their deadline, which
--   net.Conn documents to end its Reads and Writes, and else only by its own result.
--   Stream.Copy is io.Copy over scripted connections, and Stream.Copy.Pairs both workers of Run with
--   its loop. Stream.Adapter: adapter.go and addr.go.
-- Exit.Broker: broker.go, serveSession and streamAcceptor as one machine, and in Exit.Broker.Links the
--   turns of Run. Exit.Churn is Run over the connector that it polls, and Exit.Streams one session with
--   the goroutines that serveConn starts for its streams.
--   Exit.Resolver: resolver.go, the calls of Resolve over one limiter. Exit.Handler: the
--   options and the goroutines of ServeConn in handler.go, with what it gives to go-socks5;
--   Exit.Connect: its handleConnect. Exit.Access: access.go, with the methods of net.IP that it calls.
-- Proxy.Admission, Proxy.Accepting, Proxy.Bridge, Proxy.Forward: listener.go (serve and the semaphore,
--   Run, bridge, forwardRequest and writeFull).
-- Logging.Redacting: internal/logging/redacting.go. Logging.Setup, Logging.DebugFile: NewSetup and
--   openDebugFile of logging.go.
-- Command: main.go, over the models of the loops that the runners call. Command.Configured takes both
--   sides from their flags and token files to the session.
-- Tunnel: one connection through the duplex of the proxy, the pair of the relay and the duplex of the
--   exit (bridge and requestConn of listener.go, launch of bridge.go, forward and payloadConn of
--   handler.go).
--
-- Parameters: the codec of encoding/json (Transport.Framing.Codec), the answers of the network, of
-- crypto/tls, of yamux and of the random source (the environments of Transport.Tls, Transport.Handshake
-- and Transport.Authenticator), os.ReadFile, strings.ToLower, the flag package, the dialer, and the
-- order in which Go visits a map. Two sides that are put together assume that the codec carries their
-- records (Transport.Agreement.Codecs.Carries), and that yamux and TCP carry what is written in order
-- and end with EOF only behind all of it (Tunnel.Reaches.Arrives).
-- Numbers: a time.Duration is an int64 of nanoseconds with its wrap-around, a generation wraps at 2^64,
-- the length of a frame at 2^32. Loops recurse on the sequence of what they receive, or on the number of
-- attempts; writeFull runs on as many rounds as it has bytes, and each round that goes on writes one. The
-- suffixes of a debug file go up to 64, which two digits hold.
-- Goroutines: a component that several of them share is a machine whose events are the steps of each, in
-- any order; an event that nothing waits for leaves the machine as it is.
-- Not modelled: what go-socks5 does between ServeConn and the calls of the resolver, the rule and the
-- connect handles, signals, log messages, and the texts of errors beyond what errors.Is sees.
pub mod Prelude
pub mod Errors
pub mod Config
pub mod Transport
pub mod Exit
pub mod Relay
pub mod Stream
pub mod Logging
pub mod Proxy
pub mod Tunnel
pub mod Command
