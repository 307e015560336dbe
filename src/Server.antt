-- ===== src/Server.antt =====
-- server.c: the messages that the server reads from its pipe, and what they do to the connections.
pub mod Ops
pub mod Reading
pub mod Requests
pub mod InOrder
mod Tests
