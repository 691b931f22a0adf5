-- ===== src/Guard.antt =====
-- internal/guard: the userspace half of the guard, its tables and the rows it writes to the kernel.
pub mod Keys
pub mod Taint
pub mod Kernel
pub mod Events
pub mod Engine
pub mod Multicall
pub mod Rows
pub mod Temp
pub mod Inodes
pub mod Strip
pub mod Freed
