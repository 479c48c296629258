-- ===== src/Examples.antt =====
-- Concrete pools, servers, requests and updates on which the theorems are applied.
mod Requests
mod Pool
mod Server
mod Update
mod Control
mod Gate
mod Writer
mod Display
mod Boot
