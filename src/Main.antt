-- ===== src/Main.antt =====
-- main/home-node.c and components/mdns-service: the start of the node.
pub mod Life
pub mod Endpoints
pub mod Display
pub mod Types
pub mod Mdns
pub mod Start
pub mod App
pub mod Routes
pub mod Boot
