-- ===== src/Lib.antt =====
-- Tellstone: a shared-nothing in-memory key-value store with a timing wheel, value encryption,
-- role-based access control and two command dialects. This library models its core, in internal/.
--
-- The parts and how they interact. A connection (internal/resp) authenticates and parses
-- requests. A request reaches the command layer (internal/command), which looks the command up,
-- asks the session's role (internal/rbac) for each key and runs a handler on a store. The storage
-- engine (internal/storage) is one map with counters, a memory ceiling and a timing wheel; it
-- encrypts values by the cipher of internal/crypto. The SQL dialect (internal/protocol) is
-- scanned into the same operations, and the binary protocol (internal/network) carries requests
-- in frames. A shard (internal/shard) writes its log before its engine, and replays it when it
-- starts (internal/persistence).
--
-- Which file models what:
--   * Prelude: native numbers, words, bits, byte strings, tables with unique keys, and Run, a Go
--     call that returns or panics.
--   * Crypto/Cipher: internal/crypto/cipher.go. The AEAD package is the record Aead with its
--     documented laws AeadLaws; random bytes are an argument. Envelope is envelope.go, Rewrap
--     rewrap.go; a directory is a table of files, and which calls fail is an argument.
--   * Storage/Chronometer: internal/storage/chronometer.go, NewChronometer, advance and Register;
--     Fits has the range of its indices, Delivery what happens to a registered key.
--   * Storage/Engine: internal/storage/engine.go. Set, SetFromBuffer, SetRaw, Delete, Get, GetInto
--     and ForEach are set, set_from_buffer, set_raw, delete, get, get_into and for_each; tick is one
--     turn of the wheel with the engine's callback. The map of items is a table. Calls has
--     sequences of calls, Total and Ceiling their invariants, View what a client reads, Spec the
--     promise to clients and Refines its proof.
--   * Rbac: internal/rbac. Bitset is rbac.go, Catalog cmd.go, Role role.go, session.go and
--     parser.go, Role/Language the rules as README.md describes them and Role/Meaning what they
--     allow, Policy policy.go and user.go, AuthLog log.go and the counters of metrics.go, Manager
--     manager.go and Reload.
--   * Command: internal/command. Store is the interface Store, Ttl is parseSetTTL, Execute is
--     command.go and handlers.go; Execute/Gate has the properties of the gate.
--   * Sql: internal/protocol. Scan has the helpers of parser.go, Query is ParseQuery.
--   * Network: internal/network. Frame is protocol.go, Marshal, Unmarshal, Decode, Read and Write.
--     Server is server.go, a plaintext connection with the application handler as a parameter; its
--     loop has as many turns as the buffer has bytes, and a frame takes at least five.
--   * Shard: internal/shard/runner.go, Execute; the log is the Handle of Wal, and how far each
--     append comes is an argument. Logged follows a SET into the engine and the log.
--   * Wal: internal/persistence/persistence.go. Format has the bytes of a record, Handle the open log
--     and its writes, Dump the truncation behind a snapshot, Replay the replay of a plaintext log,
--     Sealed that of an encrypted one. A file is its bytes; a fault says at which byte an append
--     stops. The loops have as many turns as the file has bytes, which is enough, since every record
--     has at least sixteen. Snapshot is internal/persistence/snapshot.go with LoadShard up to its
--     migration, which is Migration; the checksum of a snapshot is a parameter.
--   * Resp: internal/resp. Protocol is protocol.go, Session the state of a connection, AUTH and the
--     workers of server.go, Dispatch its dispatch with respreply.go, Traffic its buffers and events.
--     Gate follows a client that is not authenticated. bcrypt and the provider of tokens are the
--     record Verifier, and the handlers of COMMAND, ROLE and ACL the parameter Admin. Sweeper is
--     handshake.go.
--   * Router: internal/router/router.go, the hash of a key and Dispatch; Hash is about the hash.
--   * Tests: runs of the development on concrete inputs.
--
-- How the code is read. A call is a function from the state to the next state and the result. The
-- calls of one engine, one log and one policy store are modelled one after another. The locks make
-- them so for the log and the policy store; in storage/engine.go the test of the ceiling, the counters
-- and the registration in the wheel stand outside e.mu, so calls of one engine that overlap are not
-- covered. Each reading of the clock is an argument of its own. The loops of the code are over lists
-- or byte strings; the replay of a log runs on the length of its file. A uint64 counter wraps by %
-- 2 ^ 64; an int64 is its bit pattern below 2 ^ 64, and is negative from 2 ^ 63 on. Lengths are
-- below 2 ^ 63, as Go's are; where a theorem needs a bound it says so. A nil slice and the index -1
-- are none, but a key that is nil is an empty key.
--
-- Not modelled: the TLS stack (a fork of crypto/tls), logging, metrics, configuration and the
-- executables, which are wiring or output; the handlers of COMMAND, ROLE and ACL, the TLS path and the
-- client of the binary protocol, the providers of keys, the audit file and the OAuth providers, which
-- stand beside the parts above.
pub mod Prelude
pub mod Crypto
pub mod Storage
pub mod Rbac
pub mod Command
pub mod Sql
pub mod Network
pub mod Resp
pub mod Router
pub mod Shard
pub mod Wal
pub mod Tests
