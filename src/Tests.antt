-- ===== src/Tests.antt =====
-- Runs of the definitions, and the theorems of the library at concrete inputs.
mod Samples
mod Results
mod Retries
mod Chains
mod Supervision
mod Pipelines
mod Streams
mod Doubles
mod Clients
mod Groups
mod Caps
mod Cgroups
mod Probes
mod Batches
mod Jobs
mod Counts
mod Reports
mod Pipes
mod Logs
mod Branches
mod Saves
mod Teardowns
