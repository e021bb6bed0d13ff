-- ===== src/Lib.antt =====
-- agent-tx-protocol: a proxy that runs the tool calls of an agent as steps of a transaction, and takes
-- steps back when one fails. This library models its engine, crates/agenttx-protocol/src.
--
-- The parts, and how they work together. The engine (engine/mod.rs) keeps a table of transactions
-- (engine/transaction.rs). A step runs a tool; its undo actions go to the transaction's saga ledger and
-- its irreversible effects to the staging queue (both ledger/saga.rs), and its data dependencies to a
-- graph (ledger/dependency_graph.rs). When a step fails, the rollback controller
-- (engine/state_machine.rs) chooses how far to go back, with the help of the graph; the engine then
-- undoes actions, restores the store's snapshot (storage/) and cuts the transaction's memory. A commit
-- publishes the store's state and dispatches the staged effects.
--
-- The files.
--   Prelude     lists, maps, tests and machine words. Text is a list of bytes; the native numbers are
--               used throughout, and u32 and u64 wrap around by `% 2 ^ w`.
--   Errors      errors.rs: `AgentTxError`, `Result`, the gRPC status codes.
--   Json        serde_json's `Value`, and `scalar_leaves` of the graph.
--   Graph       ledger/dependency_graph.rs: `add_step`, `record_output`, `truncate_from`. RootCause has
--               `find_root_cause`: its loop runs on fuel, one round for each edge and one for the start,
--               and RootCause/Correct shows that it ends with nothing left to visit. Links says what a
--               graph is without its indices, and Kept, Truncation, Linked and Steps what the operations
--               do to that.
--   StateMachine  engine/state_machine.rs: Status (`TxStatus`), Policy (`RollbackPolicy`) and Controller
--               (`RollbackController::decide`).
--   World       what lies outside: the store, the undo actions, the tools and the dispatcher. Each call
--               is an event of a log, and an environment answers it by all that came before. Nothing is
--               assumed of the environment unless a theorem says so.
--   Saga        ledger/saga.rs: Ledger (`SagaLedger`), Staging (`StagingQueue`) and Recovery
--               (`UndoRegistry`, `SagaLedger::recover`).
--   Transaction engine/transaction.rs. Consistency has what holds of a transaction between two steps.
--   Hints       parser/: the types of a cleaned error, and the names of its categories.
--   Engine      engine/mod.rs. Act is code under a transaction's lock, which stops at the first error by
--               `?` and keeps what was done before; Locked and Steps have the private functions, and
--               Operations has `begin`, `execute_step`, `commit`, `rollback` and `get` (`get_view`).
--               Recovery has `recover` and `reap_idle`.
--               Keeps, Frame and Ensures are rules for such code; Effects, Table, Isolation, Settled and
--               Rewind have what is shown of it.
--   Grpc        grpc/service.rs: the checks on requests and the conversion of answers.
--   Storage     storage/: Journal (the format of `JournalEntry`), Keys (`prefix_end`) and Layout (the other
--               key builders) are of storage/snapshot.rs; Values has the values and checks of
--               storage/rocks.rs, and Rocks `RocksStore` with its snapshots, its commit, its records and
--               the handle `TxStore`. Database is the part of RocksDB that these use, a parameter with
--               the laws `IsDatabase`. Restore has what is shown of snapshots and of the isolation of
--               transactions, Publish what is shown of the commit.
--   Tests       examples.
--
-- Floats. The arithmetic of f64 in `replay_budget` and `validate` is a parameter (`Floats`), and a
-- float is its bit pattern. The regular expressions of the error cleaner and of the references in
-- arguments are behind parameters of the engine (`Parts`), as are the JSON reader, the clock and the
-- source of identifiers. Blank texts are recognised by the white space of ASCII only.
--
-- The database. RocksDB is a library: a theorem on the store holds for any database with the laws
-- `IsDatabase`, where each call may fail; Tests/Databases has one that they hold of. The serde_json
-- conversions of records are a `Codec`. The methods of the store take and give the store's state; an
-- error leaves what was done before it. The engine is proved over any store, by its events in World.
-- Invalid UTF-8 in the key that an error names is kept as it is.
--
-- Concurrency. Every operation of the engine holds its transaction's lock from the look-up on, and a
-- transaction that another holder ended while an operation waited is one that is not active; the
-- table is updated when the operation ends, where a transaction that is over is removed under its own
-- id; Isolation shows that this id is the one it was looked up by. The lost worker of `spawn_blocking` is the answer `join`
-- of the store. The methods of `RocksStore` are steps of one sequence: interleavings within a
-- method, the commit lock and its poisoning are left out.
--
-- Not modelled: RocksDB itself and its options, the resolver of references, the time limit of tools,
-- the built-in tools, the reaper's timer, the start of the gRPC server, the MCP front end, the
-- command line.
pub mod Prelude
pub mod Json
pub mod Errors
pub mod Graph
pub mod StateMachine
pub mod World
pub mod Storage
pub mod Saga
pub mod Transaction
pub mod Hints
pub mod Engine
pub mod Grpc
pub mod Tests
