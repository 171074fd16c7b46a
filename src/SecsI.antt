-- ===== src/SecsI.antt =====
-- source/recv_secs.c and source/send_secs.c: the SECS-I block protocol on a serial line and the
-- blocks of a message. `value` is the return 0 of a function, with what it stores through its
-- pointers; `ret` its other return codes.
pub mod Recv
pub mod Send
pub mod Message
mod Tests
