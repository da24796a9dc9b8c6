-- ===== src/Tests.antt =====
-- The theorems at concrete inputs, and runs of the model on them.
mod StepGraph
mod PrefixTree
mod Bloom
mod Fixtures
mod Hnsw
mod Embeddings
mod ObjectStore
mod PlanCache
mod Api
mod SemanticCache
mod Policies
mod Prefetch
mod Retention
mod Latency
mod ToolCache
