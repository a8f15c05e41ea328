-- ===== src/Input.antt =====
-- server/input_funcs.c: the fields of a datagram, and the checks of the fields of a TCP request.
-- A buffer is the list of its bytes before the first NUL, so that `strlen` is `length`.
pub mod Udp
pub mod Verify
