-- ===== src/Tests.antt =====
-- Runs at concrete inputs.
pub mod World
mod Opsy
mod Packer
mod Ami
mod Cond
mod Eks
mod Controller
mod Refresher
mod Config
mod Notifier
mod Logs
mod Healthy
mod Main
