-- ===== src/Assertions.antt =====
-- runner/assertions/: the five layers of checks on one round, and their combined verdict.
-- A check's detail text is left out; a check without a verdict is one that was not executed.
pub mod Completion
pub mod Artifacts
pub mod Logs
pub mod Content
pub mod Cost
pub mod Evaluate
pub mod Accept
pub mod Verdicts
