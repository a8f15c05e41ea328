-- ===== src/Udp.antt =====
-- server/udp_functions.c, and `process_udp_request` of server/server.c. A handler takes the buffer
-- and returns the one datagram that it sends. What is printed on the terminal is left out.
pub mod Session
pub mod Queries
pub mod Dispatch
