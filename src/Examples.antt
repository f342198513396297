-- ===== src/Examples.antt =====
-- Concrete inputs: tests of the definitions, and instances of the theorems.
mod Recon
mod Framing
mod Producer
mod Ancestry
mod Status
mod Receipts
mod Config
mod Records
mod Callback
mod Run
mod Block
mod Durations
mod Pipeline
mod Digest
mod Legacy
mod Snapshot
mod Escape
mod Core
