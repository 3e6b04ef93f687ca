-- ===== src/External.antt =====
-- What stands outside of the repository, as interfaces: operations, and laws beside them.
pub mod Redis
pub mod SortedSets
pub mod Heap
pub mod Float
pub mod Reads
