-- ===== src/Routing.antt =====
-- src/vllm_router/routers/routing_logic.py: which engine a request goes to.
pub mod Qps
pub mod RoundRobin
pub mod Ring
pub mod Session
pub mod PrefixAware
pub mod Disaggregated
pub mod KvAware
pub mod Registry
mod Tests
