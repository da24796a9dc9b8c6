-- ===== src/Policies.antt =====
-- l3store/policies: which blocks leave a tier, and which objects are fetched ahead.
pub mod Lru
pub mod Adaptive
pub mod Latency
pub mod RetentionState
pub mod Retention
pub mod Prefetch
pub mod Registry
pub mod Scores
pub mod PrefixReuse
pub mod WorkflowAware
