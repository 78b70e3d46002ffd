-- ===== src/Disk.antt =====
-- go/internal/disk: guest files are read out of VirtualBox disk images.
pub mod Io
pub mod Vdi
pub mod Chain
pub mod Media
