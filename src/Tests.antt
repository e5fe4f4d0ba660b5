-- ===== src/Tests.antt =====
-- The model on concrete inputs, and each theorem applied where its hypotheses hold.
mod Platforms
mod FindTests
mod ShellTests
mod S3fsTests
mod DiffTests
mod WalkTests
mod ColumnTests
