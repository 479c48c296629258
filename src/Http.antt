-- ===== src/Http.antt =====
-- components/http-server: the asynchronous HTTP server.
pub mod Types
pub mod Respond
pub mod Async
pub mod Routes
