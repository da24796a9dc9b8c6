-- ===== src/Core.antt =====
-- l3store/core: the object types and the unified object store.
pub mod Enums
pub mod Types
pub mod ObjectStore
