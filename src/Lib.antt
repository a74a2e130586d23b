-- ===== src/Lib.antt =====
-- The KMS of this repository gives nodes the passphrases of their disks, as long as they send
-- heartbeats: a gRPC and HTTP server (cmd/kms-server, pkg/server), an HTTP heartbeat agent
-- (cmd/kms-agent) and a gRPC heartbeat client (cmd/kms-client). This library models the three
-- programs as functions on explicit state.
--
-- The parts, and how they interact. The lease store holds one record per node and keeps it in a JSON
-- file. The gRPC service checks a node's lease in Unseal, and registers the node at its peer's
-- address; its Heartbeat renews the lease of the address. The HTTP API renews a lease by a signed
-- heartbeat, tells a node its UUID, and lets an admin unblock nodes or set them under maintenance.
-- The dead-man's switch blocks nodes that are silent for too long.
--
-- Files, and what they are about:
--   Lease, Nodes                      the types and the map of pkg/server/lease_store.go
--   Store/State, Store/Json           LeaseStore, load, persistLocked, NewFileLeaseStore, and the
--                                     JSON values of a record
--   Store/Leases, Store/Sweep         the methods of LeaseStore
--   Store/Calls                       the methods that write, as data; runs of them
--   Store/Spec, Store/Abstract        the specification of a call, node by node, and the refinement;
--                                     the store as a function from nodes to records
--   Store/Effects, Store/Find         what the parts of a method do to the map
--   Store/Invariant, Blocked,         the invariant; how long a block lasts; what a restart finds;
--     Durable, Crash, RoundTrip,      what a crash leaves; records through JSON; which node an
--     Identify, Punctual, Deadline    address names; nodes that send heartbeats in time, or none
--   Store/Recovery, Lives             what a restart finds after a crash; many starts and crashes
--   Store/Gauges, Store/Grace         the gauges of leases; maintenance and leases that are over
--   Hmac/*                            pkg/server/hmac.go, with hexadecimal and decimal texts
--   Server/*                          pkg/server/server.go, and the labels of pkg/server/metrics.go
--   Metrics                           pkg/server/metrics.go
--   Http/*                            pkg/server/http.go
--   Http/Routes, Http/Routes/*        RegisterRoutes, and the choice of a handler for a request
--   DeadMan, DeadMan/*                pkg/server/deadman.go
--   System, System/*                  the running server: requests and ticks in any order, each at
--                                     one go
--   System/Concurrent, its children   the same server with the two halves of Unseal as two steps
--   System/Alive, System/Booted       agent and server together; a server without its HTTP part
--   Options                           the flags, serverOptions of cmd/kms-server/main.go, NewServer
--   Options/Boot, its children        run of cmd/kms-server/main.go
--   Agent, Agent/*                    cmd/kms-agent/main.go (Agent/Run: its run)
--   Client, Client/*                  cmd/kms-client/main.go (Client/Run: its run)
--   Prelude, Clock                    Go's integers, texts and times, and shared lemmas
--   Tests, Tests/*                    concrete data, tests and applications of the theorems
--
-- Correspondence. A method of the store is a function from the store, with the disk in it, to the
-- store and the results; a method holds the mutex from its first line to its last, so the calls of
-- concurrent clients are a list of calls. Unseal takes the mutex twice: System runs it in one piece,
-- System/Concurrent is a step relation in which it is two steps, with the requests that are between
-- them in the state, and Server/Race puts any calls between the two. A gRPC handler is an action that returns a result or an
-- error and keeps what was written before an error. The order of a loop over a map is a parameter
-- (Range), and so are the answers of the file system (Io) and the clock.
--
-- Parameters for code outside the repository: HMAC-SHA256, AES-GCM, crypto/rand, the parsers of
-- package net and time.ParseDuration, the environment, what can be read, listened on and dialled, and
-- whether files hold certificates (Machine of Options/Boot, Surroundings of Client/Run), the segments
-- into which net/http cleans a path, and the conversion to int64 of a float64 that
-- is out of range.
--
-- Bounds and fuel. int64 arithmetic wraps at 2 ^ 64 where the source can overflow (Prelude/Int);
-- times are nanoseconds since year 1 without a bound. Decimal texts are written on fuel of 19
-- digits, which every int64 fits (Hmac/Decimal). Every other loop is structural: over the map's
-- visits, over the signals of the switch, or over the rounds of a client.
--
-- Not modelled: the generated code under api/kms, the log lines but the warnings of the switch, and
-- keyCheckValue, which feeds them, the end of a server's parts after a signal, the exit status of the
-- programs, and the text of JSON, of which only the tree of values is modelled.
pub mod Prelude
pub mod Clock
pub mod Lease
pub mod Nodes
pub mod Metrics
pub mod Store
pub mod Hmac
pub mod Server
pub mod Http
pub mod DeadMan
pub mod System
pub mod Agent
pub mod Client
pub mod Options
pub mod Tests
