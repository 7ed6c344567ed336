-- ===== src/Intake.antt =====
-- src/intake: the state machine (state.ts), the content hash (hash.ts, and hashSnapshot of
-- repository.ts) and the repository of intake items (repository.ts).
pub mod State
pub mod Hash
pub mod Repository
pub mod Transition
pub mod Outcome
pub mod History
pub mod Creation
pub mod Keys
pub mod Order
pub mod Canonical
pub mod Total
pub mod Terminates
