-- ===== src/Mmap.antt =====
-- eos_lib/eos_lib/eos_mmap.cpp: windows on device registers that are mapped into the process, and
-- the access to them through offsets.
pub mod Copy
pub mod Access
pub mod Lifetime
pub mod Registers
pub mod Cells
mod Tests
use Prim.Native.String.{String}
use libeos.Prelude.{
  ℕ, zero, suc, ℤ, pos, negsuc, minus_one, is_minus_one, Bool, not, Option, none, some, List, ◌∷◌,
  ◌+◌, ◌-◌, ◌*◌, ◌/◌, ◌%◌, ◌^◌, Buf, memcpy, store, ltb, ◌==◌, if◌then◌else◌,
}

-- struct eos_mmap_unit, whose mutex is known by the events on it. `virt_mmapbase` is `none` where
-- the pointer is NULL.
pub record MmapUnit : Type 0 where
  pub fd : ℤ
  pub lenth : ℕ
  pub bits_len : ℕ
  pub phy_mmapbase : ℕ
  pub virt_mmapbase : Option ℕ

-- pthread_mutex_lock and pthread_mutex_unlock on `lock_mmap`
pub data LockEvent : Type 0 where
  lock : LockEvent
  unlock : LockEvent

-- The process: the bytes at each address of its memory, the windows of the library itself,
-- what it took from the system and has not given back, and the events on the mutexes, the latest
-- first.
pub record Process (W : Type 0) : Type 0 where
  pub mem : Buf
  pub cpu_mmap : Option MmapUnit
  pub core_cpld_mmap : Option MmapUnit
  pub gpio_mmap : Option MmapUnit
  pub files : ℕ
  pub mappings : ℕ
  pub blocks : ℕ
  pub locks : List LockEvent
  pub world : W

-- What the code uses of the system. `mmap64` gives `none` for MAP_FAILED, `word n v` is the form
-- in which the processor stores the low `n` bytes of `v`, and `number` what such bytes stand for.
pub record Os (W : Type 0) : Type 0 where
  pub malloc : W → Bool × W
  pub sys_open : String → W → ℤ × W
  pub sys_close : ℤ → W → W
  pub mmap64 : ℕ → ℤ → ℕ → W → Option ℕ × W
  pub munmap : Option ℕ → ℕ → W → ℤ × W
  pub mutex_init : W → ℤ × W
  pub mutex_destroy : W → W
  pub word : ℕ → ℕ → List ℕ
  pub number : List ℕ → ℕ

-- The macros that inc/eos_lib.h defines for the processor the library is built for.
pub record Board : Type 0 where
  pub cpu_ccsr_base_addr : ℕ
  pub cpu_ccsr_mem_len : ℕ
  pub cpu_ccsr_bits_len : ℕ
  pub core_cpld_base_addr : ℕ
  pub core_cpld_addr_len : ℕ
  pub core_cpld_bits_len : ℕ

-- The loops for(i = 0; i < len; i++) that copy a cell of `width` bytes in each round.
unfoldable pub copy_cells : (width : ℕ) (src : Buf) (from : ℕ) (dst : Buf) (to : ℕ) → ℕ → Buf
copy_cells width src from dst to zero = dst
copy_cells width src from dst to (suc len) =
    copy_cells width src (from + width) (memcpy dst to src from width) (to + width) len

module _ (board : Board) where
  -- The test on the offset; the product is one of `unsigned int`.
  unfoldable pub too_long : MmapUnit → ℕ → Bool
  too_long u offset =
      if board.cpu_ccsr_base_addr == u.phy_mmapbase
      then ltb u.lenth offset
      else ltb u.lenth (offset * (u.bits_len / 8) % 2 ^ 32)

  unfoldable pub read_cells : MmapUnit → (base offset : ℕ) → Buf → ℕ → Buf → Buf
  unfolding copy_cells
  read_cells u base offset items len mem =
      if u.bits_len == 32
      then if board.cpu_ccsr_base_addr == u.phy_mmapbase
        then copy_cells 4 mem (base + offset) items 0 len
        else copy_cells 4 mem (base + 4 * offset) items 0 len
      else if u.bits_len == 16
      then copy_cells 2 mem (base + 2 * offset) items 0 len
      else copy_cells 1 mem (base + offset) items 0 len

  unfoldable pub write_cells : MmapUnit → (base offset : ℕ) → Buf → ℕ → Buf → Buf
  unfolding copy_cells
  write_cells u base offset items len mem =
      if u.bits_len == 32
      then if board.cpu_ccsr_base_addr == u.phy_mmapbase
        then copy_cells 4 items 0 mem (base + offset) len
        else copy_cells 4 items 0 mem (base + 4 * offset) len
      else if u.bits_len == 16
      then copy_cells 2 items 0 mem (base + 2 * offset) len
      else copy_cells 1 items 0 mem (base + offset) len

module _ {W : Type 0} where
  -- What stands between the lock and the unlock works on the memory.
  abbrev pub locked : (Buf → Buf) → Process W → Process W
  locked f p = record p { mem = f p.mem; locks = unlock ∷ lock ∷ p.locks }

  abbrev pub take_block : W → Process W → Process W
  take_block w p = record p { world = w; blocks = p.blocks + 1 }

  abbrev pub take_file : W → Process W → Process W
  take_file w p = record p { world = w; files = p.files + 1 }

  abbrev pub take_mapping : W → Process W → Process W
  take_mapping w p = record p { world = w; mappings = p.mappings + 1 }

  -- free(eos_mmap_info)
  abbrev pub free : Process W → Process W
  free p = record p { blocks = p.blocks - 1 }

  abbrev pub moved_on : W → Process W → Process W
  moved_on w p = record p { world = w }

-- `devname`, or its default
abbrev pub node_of : Option String → String
node_of none = "/dev/mem"
node_of (some devname) = devname

module _ {W : Type 0} (os : Os W) where
  -- close(fd)
  abbrev pub close_file : ℤ → Process W → Process W
  close_file fd p = record p { world = os.sys_close fd p.world; files = p.files - 1 }

  -- From pthread_mutex_init's result on.
  abbrev pub with_mutex : ℤ → MmapUnit → Process W → Option MmapUnit × Process W
  with_mutex (pos zero) u p = (some u, p)
  with_mutex (pos (suc n)) u p = (none, p)
  with_mutex (negsuc n) u p = (none, p)

  -- From mmap64's result on.
  abbrev pub with_mapping :
      (lenth phy_offset bits_len : ℕ) (fd : ℤ) → Option ℕ → Process W → Option MmapUnit × Process W
  with_mapping lenth phy_offset bits_len fd none p = (none, free (close_file fd p))
  with_mapping lenth phy_offset bits_len fd (some base) p =
      let (ret, w) = os.mutex_init p.world in
      with_mutex ret
        (record {
          fd = fd;
          lenth = lenth;
          bits_len = bits_len;
          phy_mmapbase = phy_offset;
          virt_mmapbase = some base;
        })
        (take_mapping w p)

  unfoldable pub eos_mmap_init :
      (lenth phy_offset bits_len : ℕ) (devname : Option String)
      → Process W
      → Option MmapUnit × Process W
  eos_mmap_init lenth phy_offset bits_len devname p =
      if ltb 0x1000_0000 lenth
      then (none, p)
      else let (got, w1) = os.malloc p.world in
        if not got
        then (none, moved_on w1 p)
        else let (fd, w2) = os.sys_open (node_of devname) w1 in
          if is_minus_one fd
          then (none, free (moved_on w2 (take_block w1 p)))
          else let (virt, w3) = os.mmap64 lenth fd phy_offset w2 in
            with_mapping lenth phy_offset bits_len fd virt
              (moved_on w3 (take_file w2 (take_block w1 p)))

  -- The pointer that the argument points to comes back NULL where the unit is freed.
  unfoldable pub eos_mmap_exit : Option MmapUnit → Process W → ℤ × Option MmapUnit × Process W
  eos_mmap_exit none p = (minus_one, none, p)
  eos_mmap_exit (some u) p =
      let (ret, w) = os.munmap u.virt_mmapbase u.lenth p.world in
      if is_minus_one ret
      then (minus_one, some u, moved_on w p)
      else let p1 = record p { world = os.mutex_destroy w; mappings = p.mappings - 1 } in
        (pos 0, none, free (close_file u.fd p1))

  module _ (board : Board) where
    -- The argument `data` of C, `items` here, is `none` where the pointer is NULL; the data comes back as the second component.
    unfoldable pub eos_mmap_read :
        MmapUnit → (offset : ℕ) → Option Buf → (len : ℕ) → Process W → ℤ × Option Buf × Process W
    unfolding too_long read_cells
    eos_mmap_read u offset items len p = elim u.virt_mmapbase [
      | none ↦ (minus_one, items, p)
      | some base ↦ if too_long board u offset then (minus_one, items, p) else elim items [
        | none ↦ (minus_one, none, p)
        | some b ↦ (pos 0, some (read_cells board u base offset b len p.mem), locked (λ m. m) p)
      ]
    ]

    unfoldable pub eos_mmap_write :
        MmapUnit → (offset : ℕ) → Option Buf → (len : ℕ) → Process W → ℤ × Process W
    unfolding too_long write_cells
    eos_mmap_write u offset items len p = elim u.virt_mmapbase [
      | none ↦ (minus_one, p)
      | some base ↦ if too_long board u offset then (minus_one, p) else elim items [
        | none ↦ (minus_one, p)
        | some b ↦ (pos 0, locked (write_cells board u base offset b len) p)
      ]
    ]

    unfoldable pub write_cell : MmapUnit → (base offset value : ℕ) → Buf → Buf
    write_cell u base offset value mem =
        if u.bits_len == 32
        then if board.cpu_ccsr_base_addr == u.phy_mmapbase
          then store mem (base + offset) (os.word 4 value)
          else store mem (base + 4 * offset) (os.word 4 value)
        else if u.bits_len == 16
        then store mem (base + 2 * offset) (os.word 2 value)
        else store mem (base + offset) (os.word 1 value)

    unfoldable pub eos_mmap_write_data : MmapUnit → (offset value : ℕ) → Process W → ℤ × Process W
    unfolding too_long write_cell
    eos_mmap_write_data u offset value p = elim u.virt_mmapbase [
      | none ↦ (minus_one, p)
      | some base ↦
          if too_long board u offset
          then (minus_one, p)
          else (pos 0, locked (write_cell u base offset value) p)
    ]
