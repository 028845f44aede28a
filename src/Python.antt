-- ===== src/Python.antt =====
-- Python values and the operations on them that the source uses.
pub mod Number
pub mod Text
pub mod Value
pub mod Sorting
pub mod Reading
pub mod Integers
