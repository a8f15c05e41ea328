-- ===== src/Tcp.antt =====
-- server/tcp_functions.c, and `process_tcp_request` of server/server.c. A handler takes the bytes that
-- the client sends and returns those that are written to it.
pub mod Fields
pub mod Open
pub mod Bid
pub mod Close
pub mod Asset
pub mod Dispatch
