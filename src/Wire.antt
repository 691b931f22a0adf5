-- ===== src/Wire.antt =====
-- internal/infrastructure: what the kernel hands to the daemon, its event records and its mount tables.
pub mod Events
pub mod Mounts
