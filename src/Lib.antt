-- ===== src/Lib.antt =====
-- tuzy: the agent's end of the tunnel protocol (internal/protocol and internal/tunnel), the choice of the
-- tunnel's name (internal/names), the record of its traffic (internal/inspector), the server of a
-- directory (internal/fileserver), the addresses that it forwards to (internal/upstream) and the updates
-- of the program (internal/update).
--
-- The agent keeps one WebSocket connection to the edge and relays over it the HTTP requests and the
-- WebSockets of visitors to a local app. The parts, from the wire up:
-- - Protocol (internal/protocol/frames.go): the frame types, `Decode` with its checks in their order
--   (Protocol/Decode), the encoders. Protocol/Shape says independently what a frame of each type may
--   carry; Protocol/RoundTrip and Protocol/Errors compare the two.
-- - Tunnel/Flow (internal/tunnel/flow.go, `sendBody` and `sendData` of session.go): the byte credit,
--   `acquire`, the message credit and the loop that sends a response body. Flow/Bounds and Flow/Body are
--   about what is sent, Flow/Complete about sending all, Flow/Counters about the counters.
-- - Tunnel/CloseReason (internal/tunnel/ws_stream.go): `sendableCode`, `truncateReason` and
--   `localCloseStatus`.
-- - Tunnel/Http (internal/tunnel/http_stream.go): `httpStream` with `onFrame` and `feed`, the way of a
--   request body to the local app. Http/Accounts, Http/Delivery, Http/Drain and Http/Window hold the
--   proofs.
-- - Tunnel/Answer, with Answer/Choosing (internal/tunnel/http_stream.go, hostcheck.go): the rest of `run`,
--   from the answer of the local app to the end of the response, with the replay after a refused host.
--   Answer/Relays and Answer/HostCheck hold the proofs.
-- - Tunnel/LocalRequest, with LocalRequest/ResponseHeaders (internal/tunnel/http_stream.go):
--   `BuildLocalRequest`, `targetURL` and `responseHeaders`, the two ends of a round trip to the local app.
--   LocalRequest/Framing, LocalRequest/Listed and LocalRequest/Forwarded hold the proofs.
-- - Tunnel/Ws and Tunnel/Ws/Pumps (internal/tunnel/ws_stream.go): `wsStream` with `onFrame`, `localClose`,
--   `sendClose`, `pumpEdge`, `writeLocal` and `pumpLocal`. Ws/Invariant, Ws/Delivery, Ws/Closing and
--   Ws/Drop hold the proofs.
-- - Tunnel/Session, with Session/Reader and Session/Steps (internal/tunnel/session.go): the state of a
--   connection, `readLoop`, `dispatch`, `openStream`, `streamError`, `removeStream`, `grantConn`,
--   `flushConn`, `sendCtrl` and the end of `run`. Session/Objects, Session/Calls, Session/Streams,
--   Session/Balance, Session/Frames, Session/Dispatch and Session/Reads prove how each keeps the receive
--   credit; Session/Conservation puts them together, and Session/Flushed and Session/Idle are about a
--   session with no open stream.
-- - Tunnel/Writer (internal/tunnel/session.go): `writeLoop` with the two queues that feed it, one step for
--   each select and each write. Writer/Cases, Writer/Bounds, Writer/Order, Writer/Priority and
--   Writer/Close hold the proofs.
-- - Tunnel/Handshake (internal/tunnel/session.go): `handshake`, HELLO and what may answer it.
--   Handshake/Answers holds the proof.
-- - Tunnel/Client, with Client/Dialing and Client/Backoff (internal/tunnel/client.go and backoff.go):
--   `Run` with all branches of its loop, `connect`, `statusError`, `goawayExit`, `follow`, the delays and
--   `retryAfter`. It serves by a session, of which it sees the end. Client/Hints, Client/Runs, Client/Force,
--   Client/Renames and Client/Failures are about histories of it, Client/Errors about the answers of the
--   edge.
-- - Inspector, with Inspector/Bodies, Inspector/Store, Inspector/ContentLength and Inspector/Capture
--   (internal/inspector/store.go and capture.go): the entries, `appendCapped`, the store with its eviction
--   and its subscribers, and `streamRec`, whose hooks the streams of a session call. Inspector/Eviction,
--   Inspector/Shedding and Inspector/Accounts say what the eviction leaves, Inspector/History,
--   Inspector/Listing and Inspector/Subscribers are about the store, and Inspector/Captured and
--   Inspector/Recorded about a recorder on it.
-- - Names, with Names/Resolver (internal/names/names.go and resolve.go): `Valid` and `Resolver`, which
--   finds the name that the client then connects with. Names/Rule and Names/Claims hold the proofs.
-- - FileServer, with FileServer/Files (internal/fileserver/fileserver.go): which names are hidden, the
--   walk through the links of a directory, `Open` and `ReadDir`; FileServer/Writer is the response writer
--   with `RoundTrip`, which the streams use in place of a local app. FileServer/Resolve says independently
--   what a path resolves to; FileServer/Open and the end of FileServer/Writer hold the proofs.
-- - Update, with Update/Release, Update/Swap and Update/Notice (internal/update/update.go and notice.go):
--   `Download` with its checks, `Install` with the swap of the two files, and the notice of a newer
--   version. Update/Trust, Update/Rollback and Update/OncePerDay hold the proofs.
-- - Upstream (internal/upstream/upstream.go): `Parse`, `ResolveCLIDir` and `ResolveProjectDir`, which say
--   where the agent forwards to. Upstream/Targets and Upstream/Inside hold the proofs.
-- - Shared: the library's names that the parts use, lists over the native numbers.
--
-- How the state is modelled. A struct is a record, a goroutine is a record field that says where it
-- stands (`Feeder`, `EdgePump`, `LocalPump`), and each of its critical sections is one step, but a
-- change of the store and its event are one step, and so are the read and the write of
-- `PendingNotice`. A stream step gives the calls that it makes on the session as a list
-- (Tunnel/Calls), which `perform` carries out in order, each a critical section of the session. A
-- history is a list of events: frames in any order, steps of the goroutines in any order. A stream
-- that `removeStream` took from the map is still an object that its goroutines use, so a handler has a
-- mark `listed`. Frames for the two queues are kept in the order in which they are sent, while the
-- session is not over; Tunnel/Writer has the queues with their bounds and what is written. `Run` is a
-- function of a list of rounds; a `Round` is all that one turn of its loop meets: the dial and its
-- answer, the end of the session, the clock, the draws, and whether the user stops the program. The
-- map of the store is a list of entries, and a hook of a recorder is one step. The resolver acts on a
-- world, which stands for the service and the user.
--
-- Bounds. Numbers are the native ones. Frame ids and credits are uint32 on the wire, with the wrap-around
-- written out where the code converts. The counters are int64 or int in the code. `truncateReason` runs on
-- fuel, the length of the text: each round passes a byte at least. The loop of `sendBody` over what one
-- read gave runs on fuel, its length: a round that does not fail queues a byte at least. Its outer loop
-- recurses on the reads. `TrimSpace` runs on fuel, the number of bytes: a round cuts a byte at least. The
-- walk of the file server follows 40 links, as the code does, and is otherwise structural; `retry` tries
-- five times, as the code does. Sizes in the store are natural numbers; they stay far below 2^63.
--
-- Parameters. `utf8.Valid` and `json.Unmarshal` are functions that the definitions take (`Codecs`,
-- `Json`); nothing is assumed of them. Reads of the body, of the local socket and writes to the pipe and
-- to the local socket are arguments of the steps, with every outcome that the code tells apart.
-- `http.ParseTime` and `strconv.Atoi` are the parameter `TimeLib`, the random draws of the backoff are
-- part of a round, and how far `append` grows a slice is `Growth`. The `Service` of a resolver is one too;
-- a theorem about names says what it relies on (`IsService`). The tree of files is a `Root` (what `Lstat`
-- and `Readlink` tell) and an `Fs`; base64, hashes, archives and the check of a signature are a `Library`,
-- the web is a function from a URL to an answer, the order of versions is `Semver`, the handshake's JSON
-- is `HelloJson`, what the making of a request needs of strings, header keys and URLs is `HttpLib`, what
-- reads a target is `TargetLib`, and which renames succeed is a list (`Moods`); of these nothing is
-- assumed. The system of a file target is a `Dirs`; its theorem relies on what `path/filepath`
-- promises of `Abs`, `EvalSymlinks` and `Rel` (`IsPaths`).
--
-- Not modelled: timers, the heartbeat and the waits of the drain, the texts of errors, what is printed,
-- the watch for an early response, the dial of a WebSocket, the URL and the headers of the client's dial,
-- the filter and the server of the inspector, `http.FileServerFS`, the way to the latest release and the
-- method of an installation, the command line and the other packages. The edge (TypeScript) is the
-- environment.
pub mod Shared
pub mod Protocol
pub mod Tunnel
pub mod Inspector
pub mod Names
pub mod FileServer
pub mod Update
pub mod Upstream
