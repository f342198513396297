-- ===== src/Lib.antt =====
-- RS2ServerFix: the parts of the companion library that decide, over a running game server, what may
-- be changed, requested, published and believed. Each part is translated from the C++ source into
-- functions by clauses and proved in the modules below it. Paths are those of the repository.
--
-- The parts and their files:
--   Base: the numbers, lists and tests that all parts share.
--   Image: ranges of a loaded image, src/shared/startup_profile.cpp (`Range`, `Readable`, `Regions`,
--     `ReadImageRange`, `ImageRangeProtection`). A query or a read of the operating system is an
--     operation on a world that the caller gives. The walk over the regions runs on fuel, one unit for
--     each byte of the range: every region passed takes at least one byte.
--   Recon: the correction of one instruction operand, src/companion/recon_fix.cpp with recon_fix.h,
--     recon_profile.h, recon_types.h and recon_types.cpp. Check holds the tests, Fix the run with its
--     rollback, Facts, Interval and Qualify the proofs for the stages, Safety those for the whole. It
--     reads the image through Image. The SHA-256 provider, the startup gate and the test of a section
--     are parameters.
--   Framing: lines of the server's log, src/shared/native_log_framing.cpp and .h. A pointer with a
--     size is a list of bytes. Run is `BelongsToRun`, Escape is `EscapeJsonUtf16`.
--   Receipts: the scanner of that log, src/companion/steam_reporting_receipts.cpp and .h, on Framing.
--     The matching of a message is a parameter with a world of its own.
--   Types: the vocabulary, src/companion/steam_reporting_types.h and .cpp.
--   Producer: the tracker of requests and fresh tuples, src/companion/steam_reporting_state.cpp and
--     .h. Times are signed where they come in and natural where they are kept; a float is a parameter.
--   Callback: the frames and the time of a callback, src/companion/leech_recovery_policy.cpp and .h.
--   Ancestry: the class of a call, src/companion/steam_reporting_ancestry.cpp and .h.
--   Status: the exported status block, src/companion/steam_reporting_status_v3.cpp, with the layout of
--     src/shared/steam_reporting_status.h and steam_reporting_status_v3.h in Wire. The calls are
--     modelled one after another; Block has the accesses of a writer and a reader of one published
--     block, one at a time, and any interleaving of them.
--   Legacy and Durations: the block of the schema 2 and the accounting of durations,
--     src/companion/steam_reporting_status.cpp.
--   Snapshot: what another process reads of the recovery block, src/shared/leech_recovery_snapshot.cpp
--     with leech_recovery_status.h. A read is an operation on a world, so the block may change between
--     any two of them. Identity is `ReadReportingIdentityV3`. Core is the reader of the status block,
--     with the state of its attempts, src/shared/steam_reporting_snapshot_v3.cpp and .h.
--   Config: the parser of src/companion/steam_reporting_config.cpp. Text is the text of a configuration,
--     independently of the parser.
--   Records: the reported records and `CanonicalRecord`, src/companion/steam_reporting_records.cpp with
--     steam_reporting_records.h, steam_reporting_records_v3.h and src/shared/leech_recovery_status.h.
--     Ring is the ring of the schema 3; its Queue is the bounded queue that it implements. It checks
--     recovery payloads with Snapshot and withdraws admission in Status.
--   Pipeline: the ledger and the ready frames between Records, the native log and Receipts,
--     src/companion/steam_reporting_pipeline.h and .cpp. Prepare drains and formats. The second of its
--     loops runs on fuel, one unit for each drained record that is not formatted.
--   Digest: the text of a digest, src/shared/digest.cpp.
--   Examples: concrete inputs.
--
-- A 64-bit address wraps around as written out in Image.address. A 64-bit counter is bounded where the
-- source bounds it, by the same test.
--
-- Not modelled: calls of the operating system, reads of native game objects, consoles, markers and
-- files, the loading of the libraries, generated profile data, the tools, the text formats of the
-- records (a parameter of the pipeline), the startup gate (a parameter of the correction), the JSON
-- reader, the recovery, the observer and the runtime.
pub mod Base
pub mod Image
pub mod Recon
pub mod Framing
pub mod Types
pub mod Producer
pub mod Callback
pub mod Ancestry
pub mod Status
pub mod Config
pub mod Receipts
pub mod Records
pub mod Durations
pub mod Legacy
pub mod Digest
pub mod Pipeline
pub mod Snapshot
pub mod Examples
