-- ===== src/Tests.antt =====
-- Runs of the definitions on small inputs, and the theorems at inputs that meet their conditions.
pub mod Blocks
pub mod Data
pub mod Demo
pub mod Disk
pub mod Image
pub mod Locks
pub mod Files
pub mod Messages
pub mod Sockets
pub mod Mutexes
pub mod Threads
pub mod Trees
pub mod Arbiter
