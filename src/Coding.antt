-- ===== src/Coding.antt =====
-- src/coding-agent: path safety (path-safety.ts) and the validation of proposed changes (changes.ts).
pub mod PathSafety
pub mod Changes
mod Tests
pub mod Accepted
