-- ===== src/Collections.antt =====
-- The standard collections that the crates use.
pub mod HashMap
pub mod HashSet
pub mod Sort
pub mod BTreeMap
