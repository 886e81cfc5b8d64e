-- ===== src/Xv6.antt =====
-- The parts of the xv6 kernel and of its user programs, one module each.
pub mod Bio
pub mod Cli
pub mod Dir
pub mod File
pub mod Grep
pub mod Inode
pub mod Kalloc
pub mod Log
pub mod Pipe
pub mod Proc
pub mod Shell
pub mod Spinlock
pub mod Strings
pub mod Ulib
