-- ===== src/Intf.antt =====
-- frm/isgw_intf.cpp: the TCP interface. `Frames` is the reader of length-prefixed messages
-- (MSG_LEN_SIZE defined), `Text` the one of messages that end with a separator, and
-- `Request` what is done with a message, there and in frm/isgw_uintf.cpp.
pub mod Frames
pub mod Text
pub mod Request
