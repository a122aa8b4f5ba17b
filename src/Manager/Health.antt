-- ===== src/Manager/Health.antt =====
-- worker/manager/health_collector.go: the counters of a worker, and the report that it sends every
-- hour. Every counter is changed by one atomic addition, and the table of upstreams under its lock.
mod Defs
mod Report
pub mod Counters
pub mod Upstreams
unfoldable pub use Defs.*
unfoldable pub use Report.*
