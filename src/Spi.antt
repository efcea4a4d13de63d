-- ===== src/Spi.antt =====
-- The SPI classes (eos_lib/eos_spi): the base class `eos_spi_chip` the memory chips,
-- the clock chips, the switch and the loader.
pub mod Machine
pub mod Triple
pub mod Discipline
pub mod Chip
pub mod Memory
pub mod Burst
pub mod Session
pub mod Sample
mod Tests
pub mod Epcs64
pub mod Mx25u1635
pub mod Fm25v02
pub mod Mr25h10
pub mod Acs9520t
pub mod Zl30143
pub mod Zl30155
pub mod Zl30169
pub mod K10
pub mod Bcm5389
pub mod Registers
pub mod Classes
