-- ===== src/Shmem.antt =====
-- The shared memory manager of shmem.c.
pub mod Size
pub mod Tiling
pub mod Zone
pub mod Valid
pub mod Buddy
pub mod Pool
pub mod Setup
