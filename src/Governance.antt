-- ===== src/Governance.antt =====
-- govengine/_governance_validation.py and govengine/scope_policy.py: the checks on governance inputs,
-- and the scope decision that is made of them.
pub mod Validation
pub mod Timestamps
pub mod Keys
pub mod Scope
mod Tests
