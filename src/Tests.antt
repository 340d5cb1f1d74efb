-- ===== src/Tests.antt =====
-- The theorems at concrete inputs.
mod Rules
mod Stores
mod Requests
mod Configs
mod Secrets
mod Counters
mod Paths
mod Settings
mod Answers
