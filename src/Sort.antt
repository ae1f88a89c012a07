-- ===== src/Sort.antt =====
-- Python's `sorted`, `set` and `max`, which the program calls everywhere: a stable sort by a key, and
-- the sorted list of a set of identifiers.
pub mod Sets
pub mod Stable
