-- ===== src/Policy.antt =====
-- govengine/policy: the policy kernel, from the records of the data model to enforcement plans.
pub mod Forbidden
pub mod Model
pub mod Rule
pub mod Compiler
pub mod Equality
pub mod Condition
pub mod Engine
pub mod Enforcement
