-- ===== src/Controller.antt =====
-- internal/controller/ami/packerbuilder_controller.go: the reconciler of packer builders.
pub mod Healthy
pub mod State
pub mod Update
pub mod Steps
pub mod Transition
pub mod Avoids
pub mod Handlers
pub mod Watch
pub mod Reconcile
