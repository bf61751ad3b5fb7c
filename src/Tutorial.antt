-- ===== src/Tutorial.antt =====
-- The kernels that modular-kernel grew out of; it still has the screen and keyboard of the last two.
pub mod First
pub mod Basic
pub mod Extended
mod Tests
