-- ===== src/Lib.antt =====
-- The isann servers: rendezvous, market and the protocols that they share.
--
-- A node keeps a TCP control connection to a rendezvous server (pkg/rendezvous). Its frames
-- (pkg/signal, pkg/tunnel) say hello, register the node, keep it alive and report its services; UDP
-- punches tell the server the node's public address; a connect frame makes the server push a punch to
-- the node asked for. Registers and pings are signed (pkg/auth and pkg/rendezvous/session.go), and a
-- protected server asks for a credential of a listed issuer as well (rv_auth.go). The market
-- (pkg/market) takes requests that authors sign, each once, and keeps versions of recipes
-- (pkg/recipe), which it parses for their metadata when they are pushed. A recipe is a list of isann
-- commands with IF blocks, variables and includes.
--
-- Which file models what:
--   Base: bytes, decimal and hexadecimal text, Go maps, 64-bit words, UTF-8 case folding, errors.
--   Setup: the descriptions of pkg/setup/detect.go that nodes register. Setup/Hardware: StableHardware,
--     VolatileHardware and MergeHardware. Setup/Archive: the extraction of archives in setup.go, with the
--     proofs in Archive/Kept and Contained.
--   Auth/Crypto: what is taken from go-ethereum, the hashes, and the JSON and X.509 codecs.
--   Auth/Ethereum: pkg/auth/ethereum.go (BuildCanonical, SignMessage, RecoverAddress, VerifySignature).
--   Auth/Routes: pkg/auth/routes.go (ClassifyRoute).
--   Tunnel/Message, Digest, Credential, Sessions: pkg/tunnel/rendezvous.go, metrics.go, session.go
--     (RegisterDigest, PingDigest, SessionCache) and access.go. Tunnel/Mux: mux.go, the channels as lists.
--   Tunnel/Client: isannd_client.go, the node's end of the control connection. Its operations and what
--     its readers see come one after the other. Client/Identity, Sending, Rule and Faithful
--     lead to what it writes on a connection; Stream, Writing, Streamed and Received to what the server
--     reads of its bytes, of which a failed write leaves a part; Wanted and Delivery hold the other proofs.
--   Signal/Proto: pkg/signal/proto.go (WriteFrame, ReadFrame).
--   Rendezvous/State, Cadence, Counters: the types and settings of pkg/rendezvous/server.go.
--   Rendezvous/Limiter, Directory, Metrics: healthRateLimiter, handleHealth, handleNodes and handleMetrics
--     of server.go, with the proofs in Limiter/Fair, Directory/Roster and Pages, and Metrics/Listed.
--   Rendezvous/Identity, Signature: pkg/rendezvous/session.go (nodeKey, addrFromNodeID, the checks).
--   Rendezvous/Admission: pkg/rendezvous/rv_auth.go (LoadRVAuth, admitRegister).
--   Rendezvous/Registry/Register, Services, Upkeep: applyRegister, applyPing, handleConnect,
--     applyServiceEvent and what it calls, learnPublicAddr, the cleanup loop, aggregateNodeStatus.
--     Registry/Counted, Guarded and Lifecycle hold the proofs on them.
--   Rendezvous/Control: handleControlConn. The connections' goroutines become events in any order,
--     one for each frame, punch, tick, hello and end; a frame is handled in one step, though the code
--     takes the locks of the registry and of the metrics one after the other. Control/Consistent and
--     Connections hold the proofs over sequences of events.
--   Market/Nonces: auth_write.go (useOnce, verifyWrite). Market/Versions, Store, Browse: sqlstore.go,
--     the tables as lists of rows and one function per operation or query.
--   Market/AppRecipe, Meta: recipe_app_validate.go and recipe_meta.go.
--   Market/Http, Writes, Queries, Router: server.go, the checks that the handlers share, the handlers
--     that change assets, those that show them, and the mux. They take a `Platform`, which holds what is
--     from outside, and pass the `Server` on. Router/Edits, Authorised and Hidden hold
--     the proofs.
--   Recipe/Flow: pkg/recipe/runtime.go (Run, applyControl, evalCond) and validateControlFlow of
--     parser.go, over a `Machine` that expands words and executes a command. Flow/Nested is the meaning
--     of nested IF blocks, to which Flow/Refined relates the loop.
--   Recipe/Builtins: the rest of runtime.go, which fills that interface.
--   Recipe/Header, Tokens, Include, Semver: parser.go, the head of a file (with requires.go), the scanner,
--     the includes and the versions. Tokens/Sound and RoundTrip, Include/Ends and Balanced and
--     Semver/Order hold the proofs.
--   Recipe/Value, Expand: expand.go. Expand/Ends, Template and Paths hold the proofs.
--   Glog/Ring: pkg/glog/ringbuffer.go (Write, Recent).
--   Tests: runs at concrete inputs.
--
-- State is passed explicitly: a `Server` record for each server, a `Db` for the market's tables, maps
-- from texts for Go maps. Texts are lists of byte codes; trimming and lower case are those of ASCII. An
-- int64 is a natural number below 2^64 in two's complement with the wrap-around written out; a time is a
-- count of nanoseconds, in the market of seconds, since the epoch. Most functions are by structural
-- recursion. Fuel is taken by the resolution of includes, for which the number of files is enough, since
-- the chain of open files never repeats (Include/Ends); by the two loops of expand.go, for which the
-- length of the text is enough, since every round takes a byte (Expand/Ends); and by the printers of
-- numbers, which are given as many steps as the widest word has digits.
--
-- Not modelled: sockets and files, and the redirections of the HTTP mux for paths that are not clean;
-- whether a frame that is sent arrives; logs and the texts of errors; the database driver's failures;
-- the clock's steps during a request. JSON, X.509, the curve, floating point, the paths of
-- includes, the archive readers, the order and paging of SQL and the isann commands that a recipe calls
-- are parameters. The files that includes read do not change during a run. The tag of the list of nodes,
-- the plan of a dry run, certificates, logging to files, downloads and the detection of hardware, and the
-- HTTP clients and configuration files of pkg/tunnel are not modelled.
pub mod Base
pub mod Setup
pub mod Auth
pub mod Tunnel
pub mod Rendezvous
pub mod Market
pub mod Signal
pub mod Glog
pub mod Recipe
pub mod Tests
