-- ===== src/Resource.antt =====
-- eos_lib/eos_lib/eos_get_sys_resoure.cpp: how busy the processors are, and how full the memory and
-- the disk, from what the system says of itself.
pub mod Text
pub mod Stat
pub mod Load
pub mod Disk
pub mod Memory
mod Tests
