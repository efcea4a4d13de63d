-- ===== src/Pci/Reset.antt =====
-- eos_minimpc8308_reset_pcie and eos_mpc8308_reset_pcie of
-- eos_lib/eos_lib/eos_mpc8308_pci_reconfig.cpp, on the registers themselves: what an access to one
-- does is up to the hardware.
pub mod Endings
use Prim.Native.Nat.{bit_and, bit_or}
use libeos.Prelude.{
  ℕ, zero, suc, ◌+◌, ◌-◌, ◌^◌, ℤ, pos, minus_one, is_minus_one, not, Option, none, some, List, [],
  ◌∷◌, ◌==◌, if◌then◌else◌,
}
use libeos.Prelude.Method.{Ending, Method, pure, return_int, modify, ◌>>=◌, ◌>>◌}
use libeos.Pci.{ByteOrder, Bytes4, word4, number4, eos_rd_le32, eos_wr_le32, eos_wr_le16}

-- What the code uses of the system and of the registers, whose addresses are offsets in the window
-- of 0x100000 bytes. `pause` is usleep() and sleep().
pub record Chip (W : Type 0) : Type 0 where
  pub sys_open : W → ℤ × W
  pub sys_close : ℤ → W → W
  pub sys_mmap : ℤ → W → Option ℕ × W
  pub sys_munmap : ℕ → W → W
  pub load4 : (addr : ℕ) → W → Bytes4 × W
  pub store4 : (addr : ℕ) → Bytes4 → W → W
  pub store1 : (addr value : ℕ) → W → W
  pub pause : (us : ℕ) → W → W

-- What is open and mapped.
pub record Host (W : Type 0) : Type 0 where
  pub files : ℕ
  pub mappings : ℕ
  pub world : W

-- ~mask, in 32 bits
abbrev pub all_but : ℕ → ℕ
all_but mask = 2 ^ 32 - 1 - mask

-- The enabling of the outbound bridge, its windows 0 to 3, the enabling of the inbound bridge, and
-- its four windows.
abbrev pub bridge_windows : List (ℕ × ℕ)
bridge_windows =
    (0x9840, 0xf)
    ∷ (0x9ca0, 0x100_0001)
    ∷ (0x9ca4, 0xb000_0000)
    ∷ (0x9ca8, 0)
    ∷ (0x9cac, 0)
    ∷ (0x9cb0, 0x2000_0005)
    ∷ (0x9cb4, 0x8000_0000)
    ∷ (0x9cb8, 0x8000_0000)
    ∷ (0x9cbc, 0)
    ∷ (0x9cc0, 0x80_0003)
    ∷ (0x9cc4, 0xb100_0000)
    ∷ (0x9cc8, 0)
    ∷ (0x9ccc, 0)
    ∷ (0x9cd0, 0)
    ∷ (0x9cd4, 0)
    ∷ (0x9cd8, 0)
    ∷ (0x9cdc, 0)
    ∷ (0x98e0, 1)
    ∷ (0x9e60, 0xfff_f00d)
    ∷ (0x9e64, 0)
    ∷ (0x9e68, 0)
    ∷ (0x9e6c, 0)
    ∷ (0x9e70, 0xfff_f00d)
    ∷ (0x9e74, 0x1000_0000)
    ∷ (0x9e78, 0x1000_0000)
    ∷ (0x9e7c, 0)
    ∷ (0x9e80, 0xfff_f00d)
    ∷ (0x9e84, 0x2000_0000)
    ∷ (0x9e88, 0x2000_0000)
    ∷ (0x9e8c, 0)
    ∷ (0x9e90, 0xfff_f00d)
    ∷ (0x9e94, 0x3000_0000)
    ∷ (0x9e98, 0x3000_0000)
    ∷ (0x9e9c, 0)
    ∷ []

module _ {W : Type 0} (chip : Chip W) (order : ByteOrder) where
  -- The accesses, which work on the world alone.
  abbrev pub on_world : (W → W) → Method (Host W) (Unit {0})
  on_world f = modify (λ h. record h { world = f h.world })

  abbrev pub load : (addr : ℕ) → Method (Host W) Bytes4
  load addr h = let (bytes, w) = chip.load4 addr h.world in pure bytes (record h { world = w })

  -- *((unsigned int *)(cpu_base + addr))
  abbrev pub read32 : (addr : ℕ) → Method (Host W) ℕ
  read32 addr = do bytes ← load addr; pure (number4 order bytes)

  abbrev pub write32 : (addr value : ℕ) → Method (Host W) (Unit {0})
  write32 addr value = on_world (chip.store4 addr (word4 order value))

  -- A register read, changed and written.
  abbrev pub update32 : (addr : ℕ) → (ℕ → ℕ) → Method (Host W) (Unit {0})
  update32 addr f = do reg32 ← read32 addr; write32 addr (f reg32)

  abbrev pub read_le32 : (addr : ℕ) → Method (Host W) ℕ
  read_le32 addr = do bytes ← load addr; pure (eos_rd_le32 order bytes)

  abbrev pub write_le32 : (addr value : ℕ) → Method (Host W) (Unit {0})
  write_le32 addr value = on_world (chip.store4 addr (eos_wr_le32 order value))

  abbrev pub update_le32 : (addr : ℕ) → (ℕ → ℕ) → Method (Host W) (Unit {0})
  update_le32 addr f = do reg ← read_le32 addr; write_le32 addr (f reg)

  -- The serial lanes, up to the wait for them.
  unfoldable pub set_up_serdes : Method (Host W) (Unit {0})
  set_up_serdes = do
    update32 0xe3000 (λ r. bit_and r (all_but 0x8800))
    update32 0xe3008 (λ r. bit_and r (all_but 0x80_0000))
    update32 0xe3004 (λ r. bit_or r 0x40)
    update32 0xe3008 (λ r. bit_or (bit_and r (all_but 0x1c1c)) 0x1010)
    write32 0xe300c 0x101_0000
    write32 0xe3010 0x101
    update32 0xe3020 (λ r. bit_or r 0x8000_0000)

  -- while((reg32 & 0x40000000) != 0x40000000), with `left` rounds to go before `i` is above 100.
  unfoldable pub wait_serdes : (left reg32 : ℕ) → Method (Host W) (Unit {0})
  wait_serdes zero reg32 =
      if bit_and reg32 0x4000_0000 == 0x4000_0000
      then pure tt
      else (do reg ← read32 0xe3020; on_world (chip.pause 1); return_int minus_one)
  wait_serdes (suc left) reg32 =
      if bit_and reg32 0x4000_0000 == 0x4000_0000
      then pure tt
      else (do reg ← read32 0xe3020; on_world (chip.pause 1); wait_serdes left reg)

  unfoldable pub write_table : List (ℕ × ℕ) → Method (Host W) (Unit {0})
  write_table [] = pure tt
  write_table ((addr, value) ∷ rest) = do write_le32 addr value; write_table rest

  -- The reset of the link, and the three seconds that it is given.
  unfoldable pub reset_link : Method (Host W) (Unit {0})
  reset_link = do
    write32 0x140 0
    on_world (chip.pause 10)
    write32 0x140 0xe000_8000
    on_world (chip.pause 2000)
    on_world (chip.pause 3_000_000)

  -- The bridge, the interrupts, the clock and the configuration space.
  unfoldable pub configure : Method (Host W) (Unit {0})
  unfolding write_table eos_wr_le16
  configure = do
    update_le32 0x9808 (λ r. bit_or (bit_or r 0x1) 0x2)
    write_table bridge_windows
    update_le32 0x9bec (λ r. bit_and (bit_or r 0x1e0) (all_but 0x2))
    write_le32 0x9440 0x6
    on_world (chip.store1 0x9018 0)
    on_world (chip.store1 0x9019 1)
    on_world (chip.store1 0x901a 255)
    update_le32 0x9004 (λ r. bit_or (bit_or (bit_or (bit_or (bit_or r 0x4) 0x2) 0x1) 0x100) 0x40)
    on_world (chip.store4 0x9006 (eos_wr_le16 order 0xffff))
    on_world (chip.store1 0x900d 0x80)
    on_world (chip.store1 0x900c 0x08)

  -- Register 0x9404 holds 0x16 where the link is up.
  unfoldable pub check_link : Method (Host W) (Unit {0})
  check_link = do reg32 ← read_le32 0x9404; if reg32 == 0x16 then pure tt else return_int minus_one

  -- All that is done to the registers.
  unfoldable pub reconfigure : Method (Host W) (Unit {0})
  reconfigure = do
    set_up_serdes
    wait_serdes 100 (← read32 0xe3020)
    reset_link
    configure
    check_link
    on_world (chip.pause 1_000_000)

  -- munmap(cpu_base, 0x100000); close(fd); return 0;
  abbrev pub give_back : (fd : ℤ) (cpu_base : ℕ) → Method (Host W) ℤ
  give_back fd cpu_base = do
    modify (λ h. record h { world = chip.sys_munmap cpu_base h.world; mappings = h.mappings - 1 })
    modify (λ h. record h { world = chip.sys_close fd h.world; files = h.files - 1 })
    pure (pos 0)

  unfoldable pub with_mapping : (fd : ℤ) → Option ℕ → Method (Host W) ℤ
  with_mapping fd none = return_int minus_one
  with_mapping fd (some cpu_base) = do
    modify (λ h. record h { mappings = h.mappings + 1 })
    reconfigure
    give_back fd cpu_base

  -- eos_mpc8308_reset_pcie calls it.
  unfoldable pub eos_minimpc8308_reset_pcie : Method (Host W) ℤ
  eos_minimpc8308_reset_pcie h =
      let (fd, w) = chip.sys_open h.world in
      if is_minus_one fd
      then return_int minus_one (record h { world = w })
      else let (cpu_base, w2) = chip.sys_mmap fd w in
        with_mapping fd cpu_base (record h { world = w2; files = h.files + 1 })
