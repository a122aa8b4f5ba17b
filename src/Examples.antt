-- ===== src/Examples.antt =====
-- Runs of the model on concrete data, and the theorems at such data.
mod Maps
mod Users
mod Connections
mod Clients
mod Services
mod Workers
mod Controller
mod Proxies
mod Admin
mod Backend
