-- ===== src/Packer.antt =====
-- pkg/manager_packer: the manager of packer builds.
pub mod Commands
pub mod Manager
pub mod Active
pub mod Images
pub mod Cleanup
pub mod Job
pub mod Logs
