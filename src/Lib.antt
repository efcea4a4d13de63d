-- ===== src/Lib.antt =====
-- libeos gives applications on embedded boards access to the hardware: memories, clock chips, a
-- switch and a loader on the SPI bus (eos_lib/eos_spi) and the processor's own units
-- (eos_lib/eos_lib). This library models its C++ code and proves what the code does.
--
-- Spi models the SPI part. An `eos_spi_chip` object holds a receive and a send buffer, a file
-- descriptor of the kernel's spidev driver, and two callbacks that select and deselect the chip;
-- all objects share one mutex, `spi_lock`.
--   * Spi/Machine.antt: the object's fields and the caller's buffer (`Sys`), the system calls (the
--     record `Bus`, a parameter), a trace of the calls, and the monad of a method that may return
--     early. A world `W`, a parameter too, stands for the kernel and the hardware.
--   * Spi/Chip.antt: eos_lib/eos_spi/spi_85xx.cpp, by the names of its methods. `cs_init` has one
--     body in all classes, and is modelled once.
--   * Spi/Memory.antt: what the four memory chips have in common, which the source repeats in each
--     class; Spi/Epcs64.antt, Spi/Mx25u1635.antt, Spi/Fm25v02.antt and Spi/Mr25h10.antt are the
--     classes of epcs64.cpp, MX25U1635.cpp, fm25v02.cpp and eos_spi_mr25h10.cpp over it.
--   * Spi/Burst.antt: what acs9520t.cpp, zl30143.cpp, zl30155.cpp and k10.cpp have in common, with a
--     file for each of these classes; Spi/Zl30169.antt and Spi/Bcm5389.antt are the classes of
--     zl30169.cpp and BCM5389.cpp, Spi/Registers.antt takes all six together, and
--     Spi/Classes.antt all ten classes that inc/eos_spi_chip.h declares, with the methods that
--     take the lock.
--   * Spi/Triple.antt has the rules for triples of actions, Spi/Discipline.antt the automaton of
--     the lock and the chip select line, Spi/Session.antt the sequences of calls on one object,
--     and Spi/Memory/Behaviour.antt the data sheet of a memory without pages (`MemoryChip`).
--   * Spi/Sample.antt is a chip that meets the data sheet; Spi/Tests.antt applies the theorems.
-- Mmap models eos_lib/eos_lib/eos_mmap.cpp: windows on device registers, mapped into the process.
--   * Mmap.antt: the unit of a window, the process around it (its memory, what it took from the
--     system), and the functions eos_mmap_init, _exit, _read, _write and _write_data by their
--     names; the system calls are the record `Os`, a parameter, and so are the macros that
--     inc/eos_lib.h defines for a processor (`Board`). The loops over uint32_t, uint16_t and uint8_t
--     cells copy 4, 2 and 1 bytes a round, which keeps the processor's byte order out of them.
--   * Mmap/Registers.antt: the library's own windows, on the processor's registers and the CPLD.
--   * Mmap/Copy.antt, Mmap/Access.antt, Mmap/Lifetime.antt, Mmap/Registers/Access.antt: theorems;
--     Mmap/Tests.antt applies them.
-- Dma models eos_lib/eos_lib/eos_cpu_dma.cpp in Dma.antt and eos_lib/eos_lib/eos_cpu_dma_proxy.cpp
-- in Dma/Proxy.antt, by the names of their functions. A `Host` keeps the requests that were sent
-- and counts what is open and mapped; the drivers are the record `Driver`, a parameter. Theorems
-- stand in Dma/Lengths.antt, Dma/Buffers.antt and Dma/Proxy/Transfers.antt, and are applied in
-- Dma/Tests.antt.
-- I2c models eos_lib/eos_lib/eos_cpu_i2c.cpp in I2c.antt, by the names of its functions, with what
-- the process has open and allocated, and the events on its mutex; the kernel is the record
-- `Kernel`, a parameter. I2c/Balance.antt has the theorems, I2c/Tests.antt applies them.
-- Mmap/Cells.antt sees a window as cells of one number each, which is how the units below use it:
-- it implements the interface `Words` of Prelude/Words.antt, whose laws `IsRegisters` their
-- theorems take. How the processor stores a number in bytes is a parameter (`StoresNumbers`);
-- Mmap/Cells/Digits.antt is one way, for the tests.
-- Gpio models eos_lib/eos_lib/eos_cpu_gpio.cpp by the names of its functions: Gpio.antt the text for
-- the P204X, P2020, P1020 and MPC8308, Gpio/Mpc8548.antt that for the MPC8548, and
-- Gpio/Banks.antt the one that the LS1021 and the T104X share, which Gpio/Ls1021.antt and
-- Gpio/T104x.antt instantiate. A shift by 32 or more is a parameter (`Shifter`), and so are the
-- value that a function without a `return` leaves (`fallen`), htonl() and ntohl().
-- Gpio/Refinement.antt has the abstract pins, and Gpio/Drivers.antt the interface of the pins for
-- their clients, which both kinds of processors implement.
-- Watchdog models eos_lib/eos_lib/eos_watchdog.cpp in Watchdog.antt, over Mmap and over the
-- interface of the pins; the static variables of the file are the record `Dog`.
-- Watchdog/Processors.antt has the numbers of each processor.
-- Boards.antt has the macros of inc/eos_lib.h for each processor, and Entry.antt eos_lib.cpp and
-- eos_get_gid.cpp of eos_lib/eos_lib, which map the windows of a processor through Mmap and Gpio.
-- Theorems stand in Boards/Reach.antt, Entry/Windows.antt and Entry/Gid.antt.
-- Pci models eos_mpc8308_pci_reconfig.cpp of eos_lib/eos_lib in Pci.antt (the access to the
-- little-endian registers) and Pci/Reset.antt (the reset), eos_p204x_pci_hot_reset.cpp in
-- Pci/HotReset.antt, over the interface `Words`, and eos_scan_pcie.cpp in Pci/Scan.antt. In the
-- reset every access to a register goes to the hardware (`Chip`, a parameter), which may answer
-- anything; the order of the processor's bytes is the argument `ByteOrder`.
-- Resource models eos_lib/eos_lib/eos_get_sys_resoure.cpp, by the names of its functions:
--   * Resource/Text.antt: the scanning of text. Resource/Stat.antt: get_cpu_time, the rows of
--     counters read out of /proc/stat. Resource/Load.antt: eos_get_cpu_info, with the arithmetic on
--     the counters. Resource/Disk.antt: eos_get_disk_base and eos_get_disk_info.
--     Resource/Memory.antt: both texts of eos_get_mem_info.
--   * What the system says of itself (the text of /proc/stat, the output
--     of commands, sysinfo) is an argument of the functions, `none` where it cannot be had; the
--     mounts and their sizes are the record `Mounts`. The
--     operations on `float` and `double` are the record `Floats`, a parameter.
--   * Resource/Text/Numbers.antt, Resource/Stat/RoundTrip.antt, Resource/Stat/Rows.antt,
--     Resource/Stat/Files.antt, Resource/Load/Info.antt, Resource/Disk/Shares.antt and
--     Resource/Memory/Shares.antt: theorems; Resource/Tests.antt applies them.
-- Prelude holds the shared types and lemmas: Boolean tests, integers, bits, byte buffers, and the
-- monad of functions that return early (Prelude/Method.antt).
--
-- Conventions. A byte is a number, `char` is unsigned as on the target processors, `unsigned
-- long` has 32 bits, and an `int` that counts bytes is exact, since no buffer has 2^31 bytes. A
-- buffer is a function from indices, so an access past its end is not an error of the model. A
-- loop that waits for a chip gives up by itself after 256 rounds, and that count is the measure
-- of the recursion; the other loops recurse on their number of rounds. Where the source calls
-- enable() before it fills the request, the model fills the request first: the callback works on
-- the world alone, and no theorem could tell. What is printed is not modelled. Register windows
-- are plain memory that does not overlap the caller's buffer, and a device name fits the 50
-- bytes that eos_mmap_init copies it into. An address that is handed back through a pointer is
-- not cut to the pointed-to type. A size that eos_i2c_write_byte computes is cut to 32 bits, and
-- the copy behind it is not followed past the end of the block.
--
-- The text of a file is a list of characters without the character 0. sscanf, atol and fgets are
-- those of the C library: a number that does not fit becomes the largest that does. In the
-- resource queries `unsigned long` has as many bits as an argument says, and what an uninitialised
-- array or the rest of a buffer holds is an argument too. The waits of the reset are bounded by
-- the code itself, at 101 reads, and the number of reads that are left is the measure of the
-- recursion. eos_get_cpu_info ends in `none` where it writes behind its arrays. The mounts and
-- their sizes are asked of the world, which may change between two questions.
--
-- Not modelled: the watchdog functions of the P1020, the functions of eos_temp.cpp and eos_get_gid
-- for other processors than the MPC8308, whose bodies are empty; eos_lib_init of the MPC8548, which
-- calls a function that is not compiled for it; the functions that only print
-- (device_show); and a length of the clock chips, the switch or the loader that is negative.
pub mod Boards
pub mod Dma
pub mod Entry
pub mod Gpio
pub mod I2c
pub mod Mmap
pub mod Pci
pub mod Prelude
pub mod Resource
pub mod Spi
pub mod Watchdog
