-- ===== src/Lib.antt =====
-- Verification of nightfrost, a Midnight chain indexer.
--
-- nightfrost follows a Midnight node: crates/nightfrost-chain fetches finalized blocks, replays
-- their transactions on a ledger state and writes everything derived from a block into an embedded
-- key-value store in one atomic batch; crates/nightfrost-core holds the data, the stored records
-- and the store; crates/nightfrost-api serves pages of them over HTTP.
--
-- Parts, and the files that model them:
--   Prelude      lists measured by native numbers, tests, results, hash maps as entry lists.
--   Bytes        byte strings, big-endian integers, the byte order of keys.
--   Domain       crates/nightfrost-core/src/domain.rs and domain/dust.rs: the data of a replayed
--                block. Domain/Version is domain/protocol_version.rs and the digest item of
--                crates/nightfrost-chain/src/subxt_node/header.rs; Domain/Event has the event
--                constructors and `indexable_contract_fields`; Domain/Correlate has
--                `correlate_contract_action_id`.
--   Store        crates/nightfrost-core/src/store.rs: Store/Records the stored records, Store/Keys
--                the composite keys, Store/Reads the lookups of `Store`, Store/Open the schema
--                detection of `Store::open`. Store/Fjall is the interface of the key-value store,
--                Store/Error the errors, as values.
--   Ledger       crates/nightfrost-core/src/domain/ledger/ledger_state.rs and
--                crates/nightfrost-core/src/ledger_db.rs, as far as the logic is their own.
--   Ledger/State   `LedgerState`, which fills the interface `Facade` of the replay.
--   Ledger/ContractLog   Fields (the readers of a log item's flat bytes) and Attributes
--                (`make_contract_event_attributes`); Wire describes what contracts emit; the proofs
--                in Slices, Readers, Sizes, RoundTrip and Truncated.
--   Ledger/Arena   Operations is `FjallLedgerDb`; the proofs in Refinement, Scan and Roots.
--                Store/Ordered is the interface of a partition in key order.
--   Ledger/Repair   Walk (`dag_is_complete`) and Raise (`window_root_counts`, `raise_root_counts`,
--                `repair_root_counts`); the proofs in Complete, Enough, Raised and Window.
--   Pipeline     crates/nightfrost-chain/src/pipeline.rs: Pipeline/NodeBlocks is `node_blocks`,
--                Pipeline/Counters is `Counters::load`, Pipeline/Retention the window that `run`
--                keeps, Pipeline/Chain the blocks of crates/nightfrost-chain/src/domain.rs,
--                Pipeline/Startup where `run` resumes, Pipeline/Run its start and one round of its
--                loop, and Pipeline/Writer is `write_block`. The proofs of a restart are in
--                Final, Restart and Restarted.
--   Pipeline/Replay   Facade (the ledger state as the pipeline uses it), Apply
--                (`apply_transaction`) and Index (`index_block`); the proofs in Derived and Guard.
--   Pipeline/Writer   Defs (the locals of `write_block` and its loops), Utxos, Actions, Events,
--                Transactions (the transaction loop), Balances (balances and address histories),
--                Registrations (`apply_registration_event`), Window, Commit (the block's record,
--                the meta entries and the commit). The proofs: Steps, Ids, Frames, ActionFrames,
--                TxRecords, BlockRun, Tip, Deltas, Tallies, BalanceWrites, Conservation and
--                RegistrationWrites.
--   Api          crates/nightfrost-api/src/pagination.rs: Api/Pagination the parameters of a page,
--                Api/Pagination/Cursor the cursors, Scope their scopes, PrefixEnd the key ranges;
--                the proofs in RoundTrip and Authentic.
--   Api/Routes   crates/nightfrost-api/src/routes.rs: Context (the anchor of a page), Blocks (the
--                routes on single blocks and the status), BlockTxs (`block_txs`); the proofs in
--                Indexes, Rows and Pages.
--   Backfill     crates/nightfrost/src/backfill.rs: Backfill/ContractStates is
--                `backfill_contract_states`, with the proofs in Steps, Blobs, Migrated and CutOver;
--                Backfill/ContractEvents is `backfill_contract_events`, with the proof in Cached.
--   Checks       concrete blocks, stores and requests, at which the theorems are applied.
--
-- How the code is modelled. A keyspace is the parameter `Fjall`: reads by key, writes of one key, and a commit after
-- which every key has what the batch's entries, in order, make of it. Its own input and output
-- errors are not modelled. postcard is the parameter `Postcard`: one codec for each stored type,
-- whose decoding inverts its encoding; a value that does not decode is the error `panicked`, as
-- the source panics there. The ledger state is the interface `Facade`, whose methods return the
-- new state, and which Ledger/State fills: there the crates of the two ledger versions, with the
-- arena that persisted states are found in by their keys, are the parameters `Crate` and
-- `CostModel`, and the application of a transaction is `Application`. A method that fails leaves the state as it was, which matters only where
-- `apply_transaction` tries a malformed transaction again. base64, HMAC-SHA256 and SHA-256 are
-- the parameter `Crypto`, and SCALE's u32 is a parameter of `try_from_bytes`. Loops are folds
-- over the lists that the source iterates, and the `?` operator ends them.
-- A loop over a node's subscriptions is a function of the list of subscriptions.
--
-- Integers: counters are incremented modulo 2^64, `as u32` and `as u128` cut to their width, and
-- the counts of a root count repair are not cut to 32 bits, and an i128 is kept as its 128 bits, as in the release build, which does not check overflow. A
-- `HashMap` is the list of its entries in the order of insertion. A Rust string is the string of
-- its UTF-8 bytes, and a serialized ledger value (a state key, a Merkle root) is its bytes.
--
-- A loop that follows a graph or asks for page after page runs on fuel, `none` standing for fuel that
-- ran out, and a theorem says what fuel is enough: the number of pages is at most the number of
-- items, and a walk takes at most as many steps as the nodes have references. The serialization of
-- arena nodes and storage-core's backend are the parameters `Serialization` and `Backend`;
-- hexadecimal and decimal texts are `Formats`. What a restart relies on in the ledger state is the
-- interface `Storage`, which Pipeline/Restarted fills from Ledger/State.
--
-- Not modelled: the watchdog, the tip watcher and the garbage collection of `run`, the prefix scans
-- of `Store` and the routes of crates/nightfrost-api/src/routes/entities.rs that page over them, the
-- other backfills of crates/nightfrost/src/backfill.rs; the node client and the rest of the ledger facade,
-- which wrap other crates; logging, metrics, stage times and the command line, which are input
-- and output; and bridge events, which no stored record has.
pub mod Prelude
pub mod Bytes
pub mod Domain
pub mod Store
pub mod Ledger
pub mod Pipeline
pub mod Api
pub mod Backfill
pub mod Checks
