-- ===== src/Mdk.antt =====
-- MDK, the 32-bit kernel of a cluster node.
pub mod Console
pub mod Kmalloc
pub mod Cluster
pub mod Vga
pub mod Ramfs
pub mod Serial
pub mod Shell
pub mod Pci
pub mod Net
pub mod Idt
pub mod Main
pub mod Mesh
pub mod Start
mod Tests
mod MeshTests
