-- ===== src/Agent.antt =====
-- l3store/agent: the caches of agents.
pub mod ToolCache
pub mod Plans
pub mod PlanCache
