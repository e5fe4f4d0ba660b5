-- ===== src/Diff/Ed.antt =====
-- command/internal/diff/diff.go: the script of `writeEd`, run by an editor that reads commands.
pub mod Editor
pub mod Commands
pub mod Script
pub mod Hunks
pub mod Applied
