-- ===== src/Research.antt =====
-- RESEARCH-OS (YieldOS), the 64-bit kernel that coalesces interrupts to save energy.
pub mod Core
pub mod Shell
pub mod Power
pub mod Vga
pub mod Irq
pub mod Terminal
pub mod Idt
pub mod Start
pub mod Serial
mod Tests
