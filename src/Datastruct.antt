-- ===== src/Datastruct.antt =====
-- lib/datastruct: the hash table of records with keys, the interface that its callers use, and the
-- Patricia tree.
pub mod KeyedTable
pub mod Rwhashtab
pub mod Patricia
