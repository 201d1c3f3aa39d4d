-- ===== src/Tests.antt =====
-- Runs of the models at concrete inputs, and instances of the theorems.
mod Amount
mod Frames
mod ConnMgr
mod Stat
mod Svc
mod Ack
mod Bitmap
mod ObjectArray
mod Util
mod QMode
mod Intf
mod Ibc
mod ObjectQue
