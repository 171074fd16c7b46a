-- ===== src/SecsI/Message.antt =====
-- send_secsII() of source/send_secs.c and recv_secs() of source/recv_secs.c: messages as sequences
-- of SECS-I blocks.
pub mod Header
pub mod Split
pub mod Retry
pub mod Assemble
pub mod EndToEnd
