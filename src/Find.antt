-- ===== src/Find.antt =====
-- command/internal/find: the find(1) command.
pub mod Syntax
pub mod Operands
pub mod Tree
pub mod Glob
pub mod Printf
pub mod Eval
pub mod Arguments
pub mod Filesystem
pub mod Node
pub mod Walk
pub mod Apply
pub mod Command
