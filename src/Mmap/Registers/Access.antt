-- ===== src/Mmap/Registers/Access.antt =====
-- Access to the processor's registers through the library's own window.
use libeos.Prelude.{
  ℕ, ◌+◌, ◌*◌, ◌≤◌, ◌≡◌, fun_ext, sym, ap, ◌∙◌, refl, either, minus_one, is_minus_one, true, not,
  ltb, pos, false, Option, none, some, Buf, memcpy, memcpy-back, slice, store, store-slice, arith,
}
use libeos.Mmap.{
  eos_mmap_init, node_of, MmapUnit, Process, Os, Board, too_long, locked, eos_mmap_read,
  eos_mmap_write, eos_mmap_write_data, write_cell,
}
use libeos.Mmap.Access.{cell_len, cell_at, eos_mmap_read-memcpy, eos_mmap_write-memcpy}
use libeos.Mmap.Registers.{
  made, eos_cpu_mmap_init, eos_cpu_reg_read, eos_cpu_reg_write, with_cpu_mmap, read_at, write_at,
}

-- A window on the processor's registers, mapped at `base`.
pub record OnRegisters (board : Board) (u : MmapUnit) (base : ℕ) : Type 0 where
  pub is_mapped : u.virt_mmapbase ≡ some base
  pub of_registers : u.phy_mmapbase ≡ board.cpu_ccsr_base_addr
  pub of_words : u.bits_len ≡ 32

module _ {W : Type 0} (os : Os W) (board : Board) where
  pub short_addr :
      (u : MmapUnit) (base addr : ℕ)
      → OnRegisters board u base
      → addr ≤ u.lenth
      → too_long board u addr ≡ false
  unfolding too_long
  short_addr u base addr o h = let e = o.of_registers in ground arith

  cell_at-OnRegisters :
      (u : MmapUnit) (base addr : ℕ)
      → OnRegisters board u base
      → cell_at board u base addr ≡ base + addr
  cell_at-OnRegisters u base addr o = let e = o.of_registers in let f = o.of_words in ground arith

  cell_len-OnRegisters : (u : MmapUnit) (base : ℕ) → OnRegisters board u base → cell_len u ≡ 4
  cell_len-OnRegisters u base o = let f = o.of_words in ground arith

  pub read_there :
      (u : MmapUnit) (addr len : ℕ) (items : Option Buf) (p : Process W)
      → p.cpu_mmap ≡ some u
      → eos_cpu_reg_read os board addr items len p
        ≡ some (eos_mmap_read os board u addr items len p)
  unfolding eos_cpu_reg_read with_cpu_mmap
  read_there u addr len items p there =
      ap (λ q. read_at os board q.cpu_mmap addr items len q)
        (ap (λ o. with_cpu_mmap os board o p) there)
      ∙ ap (λ o. read_at os board o addr items len p) there

  pub write_there :
      (u : MmapUnit) (addr len : ℕ) (items : Option Buf) (p : Process W)
      → p.cpu_mmap ≡ some u
      → eos_cpu_reg_write os board addr items len p
        ≡ some (eos_mmap_write os board u addr items len p)
  unfolding eos_cpu_reg_write with_cpu_mmap
  write_there u addr len items p there =
      ap (λ q. write_at os board q.cpu_mmap addr items len q)
        (ap (λ o. with_cpu_mmap os board o p) there)
      ∙ ap (λ o. write_at os board o addr items len p) there

  -- Once the window on the processor's registers is mapped, eos_cpu_reg_write of `len` words at
  -- a byte offset within it returns 0, and eos_cpu_reg_read of the same place after it returns 0 and
  -- brings the bytes of these words.
  pub eos_cpu_reg_read-eos_cpu_reg_write :
      (u : MmapUnit) (base addr len : ℕ) (b c : Buf) (p : Process W)
      → p.cpu_mmap ≡ some u
      → OnRegisters board u base
      → addr ≤ u.lenth
      → let q = locked (λ m. memcpy m (base + addr) b 0 (len * 4)) p in
        (eos_cpu_reg_write os board addr (some b) len p ≡ some (pos 0, q))
        × (eos_cpu_reg_read os board addr (some c) len q
            ≡ some (pos 0, some (memcpy c 0 b 0 (len * 4)), locked (λ m. m) q))
  eos_cpu_reg_read-eos_cpu_reg_write u base addr len b c p there o fits =
      let short = short_addr u base addr o fits in
      let at = cell_at-OnRegisters u base addr o in
      let four = cell_len-OnRegisters u base o in
      let q = locked (λ m. memcpy m (base + addr) b 0 (len * 4)) p in
      (
        write_there u addr len (some b) p there
            ∙ ap some (eos_mmap_write-memcpy os board u base addr b len p o.is_mapped short)
            ∙ (λ i. some (pos 0, locked (λ m. memcpy m (at i) b 0 (len * four i)) p)),
        read_there u addr len (some c) q there
            ∙ ap some (eos_mmap_read-memcpy os board u base addr c len q o.is_mapped short)
            ∙ (λ i. some (pos 0, some (memcpy c 0 q.mem (at i) (len * four i)), locked (λ m. m) q))
            ∙ ap (λ t. some (pos 0, some t, locked (λ m. m) q))
                (memcpy-back c p.mem b (base + addr) (len * 4)),
      )

  -- Without /dev/mem there is no unit.
  eos_mmap_init-none :
      (lenth phy_offset bits_len : ℕ) (p : Process W)
      → is_minus_one (os.sys_open (node_of none) (os.malloc p.world).1).0 ≡ true
      → (eos_mmap_init os lenth phy_offset bits_len none p).0 ≡ none
  unfolding eos_mmap_init
  eos_mmap_init-none lenth phy_offset bits_len p failed =
      let None : Option MmapUnit × Process W → Type 0 = λ r. r.0 ≡ none in
      either None (ltb 0x1000_0000 lenth) refl
        (either None (not (os.malloc p.world).0) refl (rw failed refl))

  -- Where the window on the processor's registers is not there yet and /dev/mem cannot be opened,
  -- eos_cpu_mmap_init returns -1 and leaves the pointer NULL, and eos_cpu_reg_read and
  -- eos_cpu_reg_write follow it: they do not look at what eos_cpu_mmap_init returned.
  pub eos_cpu_reg_follows_null :
      (addr len : ℕ) (items : Option Buf) (p : Process W)
      → p.cpu_mmap ≡ none
      → is_minus_one (os.sys_open (node_of none) (os.malloc p.world).1).0 ≡ true
      → ((eos_cpu_mmap_init os board p).0 ≡ minus_one)
        × ((eos_cpu_mmap_init os board p).1.cpu_mmap ≡ none)
        × (eos_cpu_reg_read os board addr items len p ≡ none)
        × (eos_cpu_reg_write os board addr items len p ≡ none)
  unfolding eos_cpu_reg_read eos_cpu_reg_write eos_cpu_mmap_init with_cpu_mmap
  eos_cpu_reg_follows_null addr len items p null failed =
      let q = (eos_cpu_mmap_init os board p).1 in
      let no_unit =
        eos_mmap_init-none board.cpu_ccsr_mem_len board.cpu_ccsr_base_addr board.cpu_ccsr_bits_len p
          failed in
      let start : with_cpu_mmap os board p.cpu_mmap p ≡ q =
        ap (λ o. with_cpu_mmap os board o p) null in
      (
        ap made no_unit,
        no_unit,
        ap (λ r. read_at os board r.cpu_mmap addr items len r) start
            ∙ ap (λ o. read_at os board o addr items len q) no_unit,
        ap (λ r. write_at os board r.cpu_mmap addr items len r) start
            ∙ ap (λ o. write_at os board o addr items len q) no_unit,
      )

  write_cell-store :
      (u : MmapUnit) (base offset v : ℕ) (mem : Buf)
      → write_cell os board u base offset v mem
        ≡ store mem (cell_at board u base offset) (os.word (cell_len u) v)
  unfolding write_cell
  write_cell-store u base offset v mem = ground arith

  -- eos_mmap_write_data does what eos_mmap_write does with one cell whose bytes are those of the
  -- value, in the processor's order.
  pub eos_mmap_write_data-eos_mmap_write :
      (u : MmapUnit) (base offset v : ℕ) (b : Buf) (p : Process W)
      → u.virt_mmapbase ≡ some base
      → too_long board u offset ≡ false
      → os.word (cell_len u) v ≡ slice b 0 (cell_len u)
      → eos_mmap_write_data os board u offset v p ≡ eos_mmap_write os board u offset (some b) 1 p
  unfolding eos_mmap_write_data
  eos_mmap_write_data-eos_mmap_write u base offset v b p mapped short same =
      let one : 1 * cell_len u ≡ cell_len u = omega arith in
      rw (mapped, short)
        (ap (λ m. (pos 0, locked m p))
          (fun_ext λ mem.
            write_cell-store u base offset v mem
            ∙ ap (store mem (cell_at board u base offset)) same
            ∙ store-slice mem b (cell_at board u base offset) 0 (cell_len u)
            ∙ ap (λ n. memcpy mem (cell_at board u base offset) b 0 n) (sym one)))
      ∙ sym (eos_mmap_write-memcpy os board u base offset b 1 p mapped short)
