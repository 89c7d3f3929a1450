-- ===== src/Lib.antt =====
-- AgentWharf, parts of it: the endpoint journal of encrypted sessions (experimental/e2ee), the adapter
-- core that runs one provider session (adapter/core), and the hub's event batcher and activity
-- dispatcher (hub).
--
-- How the parts interact. A client's command reaches the machine's endpoint. `CommandExecutor` loads the
-- session's key, asks `CommandJournal` to admit the command, and hands its payload to the provider at
-- most once. Grants, wrapped keys, devices and receipts are in the same database; a change of members,
-- a rotation or a revocation moves a session to its next epoch. The provider runs under
-- `ProcessSupervisor`; the adapter joins the hub by the handshake of `AdapterConnectionState`, with a
-- credential that `CredentialRotation` renews. `SessionWorker` puts them together: it delivers commands
-- and publishes events only under that credential and with the store's receipts, and fences each start
-- of the provider; `GroupSupervisor` holds the workers of one process. `StateMachine` is the state that a
-- session shows. The hub collects the adapter's events in an `adapterEventBatcher`, whose batches go
-- to a publication function or to its store, from which `ActivityDispatcher` publishes summaries of the sessions.
--
-- Files.
--   Prelude: lists, outcomes, keyed tables, maps and signed numbers.
--   E2ee/Db: the tables of journal.go, keyvault.go and pairing.go as lists of rows, and SQL failures.
--   E2ee/Grants: `ReplaceGrants` (Valid says what a valid request is). E2ee/Admit: `Admit`, `Finish`. E2ee/Session: `SessionState`,
--     `transitionSession`, `authorize` of membership.go, the rotations. E2ee/Revoke: the revocations of
--     device_lifecycle.go (Deletion follows the grants). E2ee/Executor: `Execute` of executor.go and
--     `Load` of keyvault.go. E2ee/Vault: `Create` of keyvault.go, `SealEvent` of event_sealer.go and
--     `SealsUsed` of rotation.go.
--   E2ee/History: a history of calls of all of these but the vault's. Its children follow the writes
--     (Kinds, Writes), the command rows (Commands) and the session rows (Epochs, Keys) through it.
--   Adapter/State: adapter/core/state.go. Adapter/Credential: adapter/core/credential.go.
--   Adapter/Rotation and Adapter/Connection: the two halves of adapter/core/reconnect.go.
--   Adapter/Worker: adapter/core/session_worker.go; its children are the commands (Commands), the event
--     proposals (Proposals), histories of both with the rotation (Histories), the admissions of a start
--     (Start) and `Stop` (Stopping).
--   Adapter/Group: adapter/core/group_supervisor.go; `ConnectionAuthorityLifecycle` is in Lifecycle,
--     `Recover` and `Run` as steps in Steps, and the registry that a group implements in Registry.
--   Adapter/Supervisor: adapter/core/supervisor.go. Hub/Batcher: hub/event_batcher.go.
--   Hub/Dispatcher: hub/activity_dispatcher.go.
--
-- How the code is rendered. A method with a receiver is a function from the state to its result and the
-- new state; a nil pointer is `none`. A transaction is a function on the tables: a rollback gives the old
-- ones back. `Faults` says which statements fail, so that a statement may fail in any call; a process
-- that dies between two calls leaves the tables of the last one. Go's `time.Now()` is an argument, one
-- for each call of it. Goroutines are steps between waits and critical sections, in any order. Counters
-- that the code never lets be negative are natural numbers; int64 does not overflow at the bounds that
-- the code checks (epochs below 2^53, 4096 commands), and sequence numbers are taken unbounded.
-- Loops over lists are recursion on the list; no definition needs fuel.
--
-- Parameters: the opening of an envelope, the wrapping of keys, JSON, SHA-256, the regular expression of
-- identifiers, sealing, the check of a packet's public metadata and the publication of a batch are
-- functions given to the definitions.
-- One theorem assumes that unwrapping undoes wrapping, as its statement says, and one that the owner of
-- the process tree drops a start that is aborted; the others assume nothing of them.
--
-- Not modelled: the cryptography, the SQL stores and the network code of the hub, the protocol codec but
-- for the frames used here, the provider adapters, and the command line; they are input, output or other
-- libraries' work. Of the session worker, `Run` with its goroutines is not modelled. One supervisor runs
-- one `Run`; one database belongs to one device, machine and account.
pub mod Prelude
pub mod Adapter
pub mod Hub
pub mod E2ee
