-- ===== src/Modular.antt =====
-- modular-kernel, the 32-bit kernel with processes and a dynamic heap.
pub mod Mm
pub mod Screen
pub mod Paging
pub mod Idt
pub mod Irq
pub mod Proc
pub mod Start
pub mod Keyboard
mod Tests
