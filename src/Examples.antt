-- ===== src/Examples.antt =====
-- The theorems at concrete inputs, and tests of the definitions.
mod Merge
mod Plans
mod Scopes
mod Planning
mod Dependencies
mod Services
mod Composing
mod Executing
mod Joining
mod Fetching
