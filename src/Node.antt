-- ===== src/Node.antt =====
-- The path of a request through the node: components/user-request, main/routine_event_handler.c and
-- components/user-request-response.
pub mod Requests
pub mod Types
pub mod Output
pub mod Request
pub mod Answers
pub mod Log
pub mod Routine
