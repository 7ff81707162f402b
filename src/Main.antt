-- ===== src/Main.antt =====
-- cmd/main.go: the program's entry.
pub mod Process
pub mod Logging
pub mod Controllers
pub mod Libraries
pub mod Run
pub mod Start
