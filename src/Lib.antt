-- ===== src/Lib.antt =====
-- awsocks: a SOCKS5 and HTTP proxy that reaches private networks through an EC2 instance over AWS
-- Session Manager, optionally from inside a virtual machine with an agent.
--
-- The parts that are modelled, and the files that model them:
--   Protocol, Protocol/Payload       internal/protocol/protocol.go: the messages between the host
--     and the agent: Encode, ReadMessage on the bytes that a reader holds, the constructors,
--     ParseConnectPayload, MessageType.String. Protocol/RoundTrip has the proofs.
--   Routing/Glob, Routing/Matcher    internal/routing/matcher.go: globMatch, the three matchers,
--     ParseMatcher. Glob/Decides, Matcher/Total and Matcher/Patterns have the proofs.
--   Routing/Router, Routing/Fallback internal/routing/router.go, route.go, config.go, fallback.go:
--     NewRouter, Route, RoutePreConnect, ResolveHost, FallbackRoute, IsFallbackableError.
--     Router/Laws and Router/Hosts have the proofs.
--   DataChannel/Message              internal/backend/ssm/datachannel/message.go: Serialize and
--     Deserialize. Message/Fields and Message/RoundTrip have the proofs.
--   DataChannel/Channel, Send, Receive
--     internal/backend/ssm/datachannel/channel.go and config.go: the state of a DataChannel; what it
--     sends, acknowledges and resends; what it receives and puts in order. Channel/Order and its
--     children have the proofs on the order of delivery, Channel/Bounds and Channel/Outgoing those
--     on the outgoing buffer, Channel/Acknowledged those on acknowledgements.
--   Config/Types, Slices, Routing, Upstream, Merge
--     internal/config/config.go and merge.go: the records, Merge and its helpers. Merge/Priority
--     and Merge/Sharing have the proofs.
--   Dns/Cache                        internal/dns/cache.go: the cache of resolved names. Cache/Evict,
--     Cache/Bounds and Cache/Expiry have the proofs.
--   Dns/Config, Build                internal/dns/config.go, build.go: a rule, and how BuildConfig checks
--     and completes it. Build/Steps and Build/Valid have the proofs.
--   Dns/Client                       internal/dns/client.go: a query over TCP, its frames and the answers
--     it takes. Client/Wire and Client/Answers have the proofs.
--   Dns/Resolver                     internal/dns/resolver.go: NewResolver, Resolve and Invalidate, over
--     the client and the cache of each rule. Resolver/Policy, Cached, Again, Ready and Total
--     have the proofs.
--   Proxy/Dialer                     internal/proxy/dialer.go: ProxyDialer.Dial, with the ways that it
--     tries. Dialer/Isolation has the proofs.
--   Proxy/IdleTracker                internal/proxy/idle_tracker.go: the timer of an idle proxy, with the
--     timers of the clock that it arms. IdleTracker/Alone has the proofs.
--   Mux/Connection, State, Teardown, Reader, Pinger, Calls, System
--     internal/mux/agent_mux.go: MuxConn; the state of an AgentMux and of its goroutines; declareDead
--     and the ways to close a connection;
--     readLoop and the handlers; pingLoop; Dial, Close and the methods of a connection; the steps of
--     all of them, in any order. Connection/Stream, Table, Flow, Inversion and Invariant have the
--     invariant of the connections, Streams what follows from it for their bytes; Dials the
--     invariant of the calls of Dial; Death the proofs on declareDead, Release those on the end of
--     a wait; Jobs the proofs on the calls that close connections.
--   Backend/Notify (internal/backend/ssm/backend.go): the state, setState, and the wait for the
--     active state.
--   Backend/Upstream (internal/backend/ssm/backend.go): which addresses go through the upstream
--     proxy, UsesUpstreamProxy.
--   Prelude and its children hold what the parts share: Boolean tests, lists, byte strings, words,
--     and maps as lists of entries. Tests and its children apply the theorems to concrete inputs.
--
-- The dialer asks a router, whose methods are a record of functions. The router uses the matchers;
-- the data channel uses the frames of its messages. A frame reaches `process_message`, is
-- deserialized, acknowledged and dispatched on its type and payload type.
--
-- How the code is translated. A byte is a number and a byte string a list of them. Host names and
-- patterns are byte strings, with strings.ToLower on ASCII letters. A uint32 or uint64 is a number
-- with its wrap-around written out; an int64 is the 64 bits of its two's complement, with its order
-- and its increment as functions of those. A Go map is a list of entries. State is passed and
-- returned; an error or a panic is a value: a panic of the matchers and of Serialize is `none`, the
-- other errors are constructors. A time is a number of nanoseconds that the caller gives; a callback
-- is an entry in the state's output or events. Operations run one after the other, each as if it
-- held the locks throughout.
--
-- The agent multiplexer is a step relation: each goroutine has a place (`Reader`, `Pinger`,
-- `DialPhase`), and a step takes one of them to its next wait, be it a channel, a select or the
-- connection to the agent. A schedule is any list of steps, of messages of the agent, of failures of
-- a write or a read, and of calls by clients. A call of declareDead, Close or closeFromRemote is a
-- job: a list of its critical sections (`Action`), each a step of its own, so that the goroutines can
-- come between them; closeOnce.Do makes a second call wait for the first. readLoop waits for the job
-- that it begins, and does nothing more behind declareDead, like pingLoop. The connections and the calls are objects with numbers, so that a stale pointer stays what
-- it is in the code. `delivered` and `routed` record the history of a connection's bytes.
--
-- The backend's wait is one too: one call of waitForActive beside calls of setState that follow each
-- other, cut where the other can come between.
--
-- What is a parameter: package net (`Net`, with the laws `NetLaws` of its documentation); the JSON
-- of acknowledgements, SHA-256, the spelling of UUIDs, the handshake's answer and float64
-- (`Platform`, `Floats`), with nothing assumed of them; time.ParseDuration (`Durations`); whether
-- the websocket takes the n-th frame (`Socket.takes`); the stream of fresh UUIDs; what the dialers,
-- the resolver and the initialization answer to the proxy (`ProxyDialer`); package dnsmessage
-- (`DnsMessage`), host and port texts (`HostPorts`), and what can be read from a connection to a
-- server before the timeout (`Dial`).
--
-- Fuel. `glob_loop` has one more than the length of the pattern: each round or recursive call drops a
-- character of it. `drain` has one more than the number of buffered messages: each round deletes
-- one. `decimal` has the number itself: each round divides by ten.
--
-- What is not modelled: outside the agent multiplexer and the backend's wait, the goroutines and the
-- interleavings inside an operation; the websocket, SSH, AWS, the proxy servers, the virtual machine, the agent's sockets,
-- the loading of the file, and logging: they are I/O, or calls of libraries, or still to be modelled.
pub mod Prelude
pub mod Protocol
pub mod Routing
pub mod DataChannel
pub mod Backend
pub mod Config
pub mod Dns
pub mod Proxy
pub mod Mux
pub mod Tests
