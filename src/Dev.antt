-- ===== src/Dev.antt =====
-- kernel/src/dev: the device drivers.
pub mod Input
pub mod Sd
pub mod TtyQueue
pub mod TtyCells
pub mod Tty
pub mod TtyTask
pub mod Video
pub mod Table
pub mod Shown
mod Tests
