-- ===== src/Lib.antt =====
-- Pluribus runs agents over an append-only log of events. Plugins are delivered the events of a
-- stream and answer with one atomic commit: new events, changes to their own state and the next
-- checkpoint. The core decides what a plugin may propose (event types and their schemas) and what a
-- capability request may do (grants, expiry, depth). Large payloads stand in a blob store.
--
-- Parts and files, with the code they model:
--   Base           shared helpers: lists, maps, orders, texts, decimals, results.
--   Core.Identity, Core.BlobRef, Core.Event
--                  crates/pluribus-core/src/identity.rs and event.rs: `AppendRequest::validate`,
--                  `EventQuery::matches`, `validate_blob_ref`, `validate_media_type`.
--   Core.Delivery  crates/pluribus-core/src/delivery.rs and state.rs: `DeliveryCommit::validate`.
--   Core.Registry  crates/pluribus-core/src/registry.rs: `EventTypeRegistry::core`, `validate`,
--                  `authorize`, `matches_pattern`.
--   Core.Authority crates/pluribus-core/src/authority.rs: `Authority::decide` and its parts.
--   Core.Blob      crates/pluribus-core/src/blob.rs: `InMemoryBlobStore`, each call one step on
--                  the state (`begin_put`, `write`, `finish_put`, `abort_put`, `read`).
--   Core.Net       crates/pluribus-core/src/net.rs: `is_public_address`.
--   Store          crates/pluribus-store-sqlite/src/lib.rs: Rows (`encode_payload`,
--                  `decode_event`), Tables (the schema), Events (`append_in`, `insert_event`,
--                  `append`, `read`, `get`, `query`, `literal_search_query`), State (`get`,
--                  `scan`, `apply`), Delivery (`commit`, `discard`, `read_checkpoint`),
--                  Credentials (`read_plugin_credential`, `replace_plugin_credential`).
--   Json           JSON values and the accessors of them that the program uses.
--   Cognition.Authority
--                  crates/pluribus-cognition/src/authority.rs: `OriginAuthority::resolve` (one round
--                  is `visit` and `parent_of`), `issue`, `OriginConstraints::allows`.
--   Cognition.EventStore
--                  the event store as an interface with its laws, which the tables of Store meet;
--                  Growth has the states that it comes to by appends.
--   Cognition.Dispatch
--                  crates/pluribus-cognition/src/dispatch.rs: `Subscriptions::accepts`,
--                  `ProjectedConstraints`, and of `Router` `recipients`, `poll` (Polling),
--                  `route_request`, `append_decision`, `append_denial`, `append_component_failure`,
--                  `append_health` (Decisions), `expired`, `reject_stale_code`, `cancel_attempt`,
--                  `admit_attempt`, `authorized_for` (Attempts), `result_for` (Projection),
--                  `revision_current` (Revisions).
--   Scheduler.Schedule, Scheduler.Management
--                  plugins/scheduler/src/schedule.rs: `Timing::next`, `Timing::first`,
--                  `Schedule::occurrence`, `Schedule::owned_by`; management.rs: `manage` (`list`,
--                  `create`, and `existing` for the other requests), `text`; component.rs:
--                  `schedule_mutation`.
--   Package        crates/pluribus-plugin-package/src/path.rs: `read_package_file` (`descend` is its
--                  loop), `validate_relative_path`, `read_bounded`, `validate_package_root`.
--
-- A delivery uses the validation of Core.Delivery, the state of Store.State and the append of
-- Store.Events inside one transaction. Store.Events.Log is the abstract log, and
-- Store.Events.Refinement relates the tables to it (`Represents`). The router is stated over the
-- interface of Cognition.EventStore, whose laws speak of that log.
--
-- Choices. A transaction is one function on the tables: it gives new tables when it commits, and
-- the old ones otherwise. Tables are lists of rows and maps by primary key. A failure of SQLite
-- itself (disk, locking) is not modelled. A `u64` or `i64` is a number with its checks written
-- out; `usize` is 64 bits, and the sum that `read_bounded` forms wraps as in a release build.
-- Revisions and checkpoints are stored as decimal text, which reads back as the number. A Unicode
-- text is its code points, and the byte order of texts is the order of those. Recursion is
-- structural, but for the loops of the router over the pages of a stream: they run on a number of
-- rounds, which is enough when it exceeds the number of the stream's events, and answer `none`
-- when it is not. `resolve` has the 4096 rounds of the code. The projection that the router keeps
-- behind a lock is an argument and a result of the calls.
--
-- Parameters: the JSON text and pointers of serde_json (`JsonText`), the claim of an admission
-- (the process, the time and a counter), the identifiers and times of commits (`Metadata`), the
-- full-text index, lossy decoding and character classes (`TextIndex`), the SHA-256 digest, and the
-- constraint policy of a capability provider; of the scheduler, the calendar (RFC 3339 texts, time
-- zones, cron patterns; the next time of a pattern is taken to be in the future, which is what it
-- means) and serde's codecs of a schedule and a timing; the file system below a package.
--
-- Not modelled: schema migrations, snapshots and files; of the dispatch, `fail_sessions` and the
-- events of resource exhaustion; the agent of crates/pluribus-cognition; the WASM runtime, the
-- hosts, the manifests and digests of packages and the command line, which are I/O and glue; the
-- component and the timers of the scheduler; the other plugins. Messages of errors that carry a
-- foreign error's text keep its first words only.
pub mod Base
pub mod Json
pub mod Core
pub mod Store
pub mod Cognition
pub mod Scheduler
pub mod Package
