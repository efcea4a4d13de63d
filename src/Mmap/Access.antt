-- ===== src/Mmap/Access.antt =====
-- What a read and a write through a window do: the copy that the comments in the source name, and
-- nothing where an argument is refused.
use libeos.Prelude.{
  ℕ, suc, ◌+◌, ◌*◌, ◌^◌, ◌≤◌, ◌<◌, ◌≡◌, ◌≢◌, ◌⊎◌, inl, inr, refl, ap, ◌∙◌, pos, minus_one, true,
  false, Bool-cases, Option, none, some, Buf, memcpy, memcpy-back, ◌==◌, if◌then◌else◌, arith,
}
use libeos.Mmap.{
  MmapUnit, Process, Os, Board, too_long, read_cells, write_cells, locked, eos_mmap_read,
  eos_mmap_write,
}
use libeos.Mmap.Copy.{copy_cells-memcpy}

-- The bytes of a cell of the window, and where cell `offset` of a window at `base` begins. The
-- window on the processor's own registers counts its offsets in bytes.
abbrev pub cell_len : MmapUnit → ℕ
cell_len u = if u.bits_len == 32 then 4 else if u.bits_len == 16 then 2 else 1

module _ (board : Board) where
  abbrev pub cell_at : MmapUnit → (base offset : ℕ) → ℕ
  cell_at u base offset =
      if u.bits_len == 32
      then if board.cpu_ccsr_base_addr == u.phy_mmapbase then base + offset else base + 4 * offset
      else if u.bits_len == 16
      then base + 2 * offset
      else base + offset

  pub read_cells-memcpy :
      (u : MmapUnit) (base offset : ℕ) (b : Buf) (len : ℕ) (mem : Buf)
      → read_cells board u base offset b len mem
        ≡ memcpy b 0 mem (cell_at u base offset) (len * cell_len u)
  unfolding read_cells
  read_cells-memcpy u base offset b len mem = elim (Bool-cases (u.bits_len == 32)) [
    | inl wide ↦ elim (Bool-cases (board.cpu_ccsr_base_addr == u.phy_mmapbase)) [
      | inl own ↦ rw (wide, own) (copy_cells-memcpy 4 mem (base + offset) b 0 len)
      | inr other ↦ rw (wide, other) (copy_cells-memcpy 4 mem (base + 4 * offset) b 0 len)
    ]
    | inr narrow ↦ elim (Bool-cases (u.bits_len == 16)) [
      | inl half ↦ rw (narrow, half) (copy_cells-memcpy 2 mem (base + 2 * offset) b 0 len)
      | inr byte ↦ rw (narrow, byte) (copy_cells-memcpy 1 mem (base + offset) b 0 len)
    ]
  ]

  pub write_cells-memcpy :
      (u : MmapUnit) (base offset : ℕ) (b : Buf) (len : ℕ) (mem : Buf)
      → write_cells board u base offset b len mem
        ≡ memcpy mem (cell_at u base offset) b 0 (len * cell_len u)
  unfolding write_cells
  write_cells-memcpy u base offset b len mem = elim (Bool-cases (u.bits_len == 32)) [
    | inl wide ↦ elim (Bool-cases (board.cpu_ccsr_base_addr == u.phy_mmapbase)) [
      | inl own ↦ rw (wide, own) (copy_cells-memcpy 4 b 0 mem (base + offset) len)
      | inr other ↦ rw (wide, other) (copy_cells-memcpy 4 b 0 mem (base + 4 * offset) len)
    ]
    | inr narrow ↦ elim (Bool-cases (u.bits_len == 16)) [
      | inl half ↦ rw (narrow, half) (copy_cells-memcpy 2 b 0 mem (base + 2 * offset) len)
      | inr byte ↦ rw (narrow, byte) (copy_cells-memcpy 1 b 0 mem (base + offset) len)
    ]
  ]

  fits-too_long :
      (u : MmapUnit) (offset len : ℕ)
      → u.phy_mmapbase ≢ board.cpu_ccsr_base_addr
      → u.bits_len ≡ 8 * cell_len u
      → (offset + len) * cell_len u ≤ u.lenth
      → u.lenth < 2 ^ 32
      → too_long board u offset ≡ false
  unfolding too_long
  fits-too_long u offset len other bits fits small = ground arith

  end-too_long :
      (u : MmapUnit) → u.bits_len ≡ 8 → u.lenth < 2 ^ 32 → too_long board u u.lenth ≡ false
  unfolding too_long
  end-too_long u bits small = ground arith

module _ {W : Type 0} (os : Os W) (board : Board) where
  -- A read that is not refused returns 0, copies the bytes of `len` cells from where cell `offset`
  -- of the window stands to the front of the caller's buffer, changes no memory, and locks and
  -- unlocks the window's mutex once.
  pub eos_mmap_read-memcpy :
      (u : MmapUnit) (base offset : ℕ) (b : Buf) (len : ℕ) (p : Process W)
      → u.virt_mmapbase ≡ some base
      → too_long board u offset ≡ false
      → eos_mmap_read os board u offset (some b) len p ≡ (
        pos 0,
        some (memcpy b 0 p.mem (cell_at board u base offset) (len * cell_len u)),
        locked (λ m. m) p,
      )
  unfolding eos_mmap_read
  eos_mmap_read-memcpy u base offset b len p mapped short =
      rw (mapped, short, read_cells-memcpy board u base offset b len p.mem) refl

  -- A write that is not refused returns 0, copies the bytes of `len` cells from the caller's buffer
  -- to where cell `offset` of the window stands, and locks and unlocks the window's mutex once.
  pub eos_mmap_write-memcpy :
      (u : MmapUnit) (base offset : ℕ) (b : Buf) (len : ℕ) (p : Process W)
      → u.virt_mmapbase ≡ some base
      → too_long board u offset ≡ false
      → eos_mmap_write os board u offset (some b) len p
        ≡ (pos 0, locked (λ m. memcpy m (cell_at board u base offset) b 0 (len * cell_len u)) p)
  unfolding eos_mmap_write
  eos_mmap_write-memcpy u base offset b len p mapped short =
      rw (mapped, short, write_cells-memcpy board u base offset b len p.mem) refl

  -- After a write that is not refused, a read of the same cells brings the bytes that were written,
  -- and leaves what stands behind them in the caller's buffer.
  pub eos_mmap_read-eos_mmap_write :
      (u : MmapUnit) (base offset : ℕ) (b c : Buf) (len : ℕ) (p : Process W)
      → u.virt_mmapbase ≡ some base
      → too_long board u offset ≡ false
      → let (written, q) = eos_mmap_write os board u offset (some b) len p in
        let (got, items, r) = eos_mmap_read os board u offset (some c) len q in
        (written ≡ pos 0)
        × (got ≡ pos 0)
        × (items ≡ some (memcpy c 0 b 0 (len * cell_len u)))
        × (r.mem ≡ q.mem)
  eos_mmap_read-eos_mmap_write u base offset b c len p mapped short =
      let w = eos_mmap_write-memcpy u base offset b len p mapped short in
      let q = (eos_mmap_write os board u offset (some b) len p).1 in
      let r = eos_mmap_read-memcpy u base offset c len q mapped short in
      let stored : q.mem ≡ memcpy p.mem (cell_at board u base offset) b 0 (len * cell_len u) =
        ap (λ t. t.1.mem) w in
      (
        ap (λ t. t.0) w,
        ap (λ t. t.0) r,
        ap (λ t. t.1) r
            ∙ ap (λ m. some (memcpy c 0 m (cell_at board u base offset) (len * cell_len u))) stored
            ∙ ap some (memcpy-back c p.mem b (cell_at board u base offset) (len * cell_len u)),
        ap (λ t. t.2.mem) r,
      )

  -- A window that is not mapped, an offset that the test finds too long, or a NULL buffer: a read
  -- and a write return -1 and change nothing, and take no lock.
  pub eos_mmap_refuses :
      (u : MmapUnit) (offset : ℕ) (items : Option Buf) (len : ℕ) (p : Process W)
      → ((u.virt_mmapbase ≡ none) ⊎ (too_long board u offset ≡ true) ⊎ (items ≡ none))
      → (eos_mmap_read os board u offset items len p ≡ (minus_one, items, p))
        × (eos_mmap_write os board u offset items len p ≡ (minus_one, p))
  unfolding eos_mmap_read eos_mmap_write
  eos_mmap_refuses u offset items len p (inl e) = ground arith
  eos_mmap_refuses u offset items len p (inr (inl e)) = ground arith
  eos_mmap_refuses u offset items len p (inr (inr e)) = ground arith

  -- A write of cells that lie within the window changes no byte outside of it, for a window of 8,
  -- 16 or 32 bits that is not the one on the processor's registers, of fewer than 2^32 bytes.
  pub eos_mmap_write_stays_inside :
      (u : MmapUnit) (base offset : ℕ) (b : Buf) (len : ℕ) (p : Process W) (j : ℕ)
      → u.virt_mmapbase ≡ some base
      → u.phy_mmapbase ≢ board.cpu_ccsr_base_addr
      → u.bits_len ≡ 8 * cell_len u
      → (offset + len) * cell_len u ≤ u.lenth
      → u.lenth < 2 ^ 32
      → (j < base) ⊎ (base + u.lenth ≤ j)
      → let (ret, q) = eos_mmap_write os board u offset (some b) len p in
        (ret ≡ pos 0) × (q.mem j ≡ p.mem j)
  eos_mmap_write_stays_inside u base offset b len p j mapped other bits fits small outside =
      let w =
        eos_mmap_write-memcpy u base offset b len p mapped
          (fits-too_long board u offset len other bits fits small) in
      (ap (λ t. t.0) w, ap (λ t. t.1.mem j) w ∙ ground arith)

  -- The test on the offset lets the end of the window itself pass, and does not look at the length:
  -- a write to a window of bytes at the offset `lenth` returns 0 and changes the byte behind it.
  pub eos_mmap_write_escapes :
      (u : MmapUnit) (base : ℕ) (b : Buf) (len : ℕ) (p : Process W)
      → u.virt_mmapbase ≡ some base
      → u.bits_len ≡ 8
      → u.lenth < 2 ^ 32
      → let (ret, q) = eos_mmap_write os board u u.lenth (some b) (suc len) p in
        (ret ≡ pos 0) × (q.mem (base + u.lenth) ≡ b 0)
  eos_mmap_write_escapes u base b len p mapped bits small =
      let w =
        eos_mmap_write-memcpy u base u.lenth b (suc len) p mapped
          (end-too_long board u bits small) in
      (ap (λ t. t.0) w, ap (λ t. t.1.mem (base + u.lenth)) w ∙ ground arith)
