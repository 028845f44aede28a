-- ===== src/Policy/Compiler.antt =====
-- govengine/policy/compiler: the compilation of declarative packs.
pub mod Grammar
pub mod Sorting
pub mod Conditions
pub mod Rules
pub mod Pack
pub mod Ordering
pub mod Laws
mod Tests
