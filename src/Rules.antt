-- ===== src/Rules.antt =====
-- src/rules: what a rule is, how it matches a request, and the compiled index over a rule set.
pub mod Url
pub mod Matching
pub mod Model
pub mod Compiled
pub mod Runtime
pub mod Order
pub mod Resolve
pub mod Candidates
pub mod Dns
mod Tests
pub mod Explain
pub mod Schema
pub mod Live
pub mod Compile
