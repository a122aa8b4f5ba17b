-- ===== src/Manager.antt =====
-- worker/manager: what a worker knows of its pool, users and upstreams, and its link to Captain.
pub mod Models
pub mod Upstreams
pub mod Users
pub mod Health
pub mod Worker
