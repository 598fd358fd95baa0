-- ===== src/Tests.antt =====
-- Runs on concrete inputs, and the theorems at inputs where their hypotheses hold.
mod Verdicts
mod Indexing
mod Contracts
mod Routes
mod Validating
mod Accounts
mod Storage
mod Volumes
mod Requests
mod Images
mod Stores
mod Storages
mod Both
mod Templates
