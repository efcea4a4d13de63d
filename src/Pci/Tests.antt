-- ===== src/Pci/Tests.antt =====
-- The theorems on the PCI Express controllers at concrete inputs.
use Prim.Native.Nat.{bit_and, bit_or}
use libeos.Prelude.{ℕ, ◌+◌, ◌-◌, ◌^◌, ◌<◌, ◌≡◌, pos, some, ◌==◌, if◌then◌else◌, bit, arith}
use libeos.Prelude.Method.{call}
use libeos.Mmap.Cells.{cpu_words}
use libeos.Gpio.Sample.{system, t104x, start, cpu_registers, cpu-Valid, cpu-Ready}
use libeos.Pci.{big, little, eos_rd_le32, eos_wr_le32, eos_wr_le16}
use libeos.Pci.LittleEndian.{eos_rd_le32-eos_wr_le32, eos_wr_le16_lem}
use libeos.Pci.Reset.{Chip, Host, eos_minimpc8308_reset_pcie}
use libeos.Pci.Reset.Endings.{Ended, eos_minimpc8308_reset_pcie-Ended}
use libeos.Pci.HotReset.{reset_pcie_controller, pcie_reset_addr}
use libeos.Pci.HotReset.Pulse.{reset_pcie_controller_lem}

eos_rd_le32-eos_wr_le32_example :
    (eos_wr_le32 big 0xfff_f00d ≡ (0x0d, 0xf0, 0xff, 0x0f))
    × (eos_rd_le32 big (0x16, 0, 0, 0) ≡ 0x16)
    × (eos_rd_le32 big (eos_wr_le32 big 0xfff_f00d) ≡ 0xfff_f00d)
eos_rd_le32-eos_wr_le32_example =
    eos_rd_le32-eos_wr_le32 big 0xfff_f00d (0x16, 0, 0, 0) (omega arith)
      (omega arith, omega arith, omega arith, omega arith)

-- What the reset writes to the status register at 0x9006.
eos_wr_le16_lem_example :
    (eos_wr_le16 big 0xffff ≡ (0, 0, 0xff, 0xff)) × (eos_wr_le16 little 0xffff ≡ (0xff, 0xff, 0, 0))
eos_wr_le16_lem_example = eos_wr_le16_lem 0xffff (omega arith)

-- Registers that hold 0x40000016, the number of accesses as the world.
abbrev counting : Chip ℕ
counting = record {
  sys_open = λ w. (pos 3, w);
  sys_close = λ fd w. w;
  sys_mmap = λ fd w. (some 0x1000, w);
  sys_munmap = λ base w. w;
  load4 = λ addr w. ((0x40, 0, 0, 0x16), w + 1);
  store4 = λ addr bytes w. w + 1;
  store1 = λ addr value w. w + 1;
  pause = λ us w. w;
}

abbrev host : Host ℕ
host = record { files = 0; mappings = 0; world = 0 }

eos_minimpc8308_reset_pcie-Ended_example :
    Ended counting big host (call (eos_minimpc8308_reset_pcie counting big) host)
eos_minimpc8308_reset_pcie-Ended_example = eos_minimpc8308_reset_pcie-Ended counting big host

reset_pcie_controller_lem_example :
    let a = pcie_reset_addr 1 in
    let on = bit_or (cpu_registers.cell a start) (2 ^ 27) in
    let off = bit_and on (2 ^ 32 - 1 - 2 ^ 27) in
    (call (reset_pcie_controller (cpu_words system t104x) (λ us s. s) 2) start
      ≡ some (
        pos 0,
        cpu_registers.stored a off (cpu_registers.stored a on (cpu_registers.seen start)),
      ))
    × ((j : ℕ) → j < 32 → bit j on ≡ (if j == 27 then 1 else bit j (cpu_registers.cell a start)))
    × ((j : ℕ) → j < 32 → bit j off ≡ (if j == 27 then 0 else bit j (cpu_registers.cell a start)))
reset_pcie_controller_lem_example =
    reset_pcie_controller_lem cpu_registers (λ us s. s) 1 start (omega arith)
      (cpu-Valid _ (omega arith)) cpu-Ready (λ t ready. ready)
