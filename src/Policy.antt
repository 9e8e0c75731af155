-- ===== src/Policy.antt =====
-- go/policy: rules and bundles, the engine's decisions, record conditions, the decision ladder.
pub mod Model
pub mod Fls
pub mod Engine
pub mod Abac
pub mod Decide
pub mod Wire
pub mod Bundle
pub mod Service
mod Tests
