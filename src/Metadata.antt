-- ===== src/Metadata.antt =====
-- l3store/metadata: the in-memory indexes of the object store.
pub mod StepGraph
pub mod PrefixTree
pub mod Bloom
pub mod Hnsw
pub mod Store
