-- ===== src/Replay.antt =====
-- REPLAY-OS, the 64-bit kernel with a trace recorder.
pub mod Pmm
pub mod Trace
pub mod Idt
pub mod Task
pub mod Vga
pub mod Console
pub mod Disk
pub mod Serial
pub mod Workload
pub mod Start
pub mod Dispatch
pub mod Session
mod Tests
