-- ===== src/Stats.antt =====
-- src/vllm_router/stats: the request statistics and the scraped statistics of each engine.
pub mod Record
pub mod Window
pub mod Monitor
pub mod Life
pub mod Report
pub mod Engines
pub mod Scrape
mod Tests
pub use Record.{RequestStats}
