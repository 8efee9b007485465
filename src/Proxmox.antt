-- ===== src/Proxmox.antt =====
-- The import from Proxmox VE (src/proxmox).
pub mod Config
pub mod Allow
pub mod Names
mod Tests
