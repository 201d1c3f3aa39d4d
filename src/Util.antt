-- ===== src/Util.antt =====
-- comm/sys_comm.cpp and comm/isgw_comm.cpp, namespace EASY_UTIL: helpers on text. A `char` is its
-- byte.
pub mod Hex
pub mod Url
pub mod Split
pub mod Numbers
pub mod Maps
pub mod Replace
