-- ===== src/Policy/Enforcement.antt =====
-- govengine/policy/enforcement: the runtime controls that a verdict projects to, and the plan that
-- admits its execution.
pub mod Projection
pub mod Kinds
pub mod Limits
pub mod Guarantees
pub mod Plan
mod Tests
