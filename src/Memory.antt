-- ===== src/Memory.antt =====
-- The memory managers of the kernel that hand out physical frames and bytes.
pub mod Frames
pub mod Descriptors
pub mod Pmm
pub mod Zeroer
pub mod Boot
mod Tests
