-- ===== src/Syscalls.antt =====
-- The exercises on system calls, folder syscalls.
pub mod Write
pub mod Split
pub mod Merge
pub mod Mystrings
