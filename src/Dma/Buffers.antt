-- ===== src/Dma/Buffers.antt =====
-- What eos_get_dma_buffer_addr leaves open and mapped.
use libeos.Prelude.{
  ℕ, ◌+◌, ◌≡◌, refl, either, ℤ, pos, minus_one, is_minus_one, Option, none, some, arith,
}
use libeos.Dma.{
  Driver, Host, with_mapped, get_buffer_addr, eos_get_dma_buffer_addr,
  eos_get_dma_buffer_addr_channel,
}

-- Either -1, no address and as much open and mapped as before; or 0, an address, one more mapping,
-- and one more open file.
abbrev pub Looked : {W : Type 0} → Host W → ℤ × Option ℕ × Host W → Type 0
Looked h (ret, none, g) = (ret ≡ minus_one) × (g.files ≡ h.files) × (g.mappings ≡ h.mappings)
Looked h (ret, some addr, g) =
    (ret ≡ pos 0) × (g.files ≡ h.files + 1) × (g.mappings ≡ h.mappings + 1)

module _ {W : Type 0} (dev : Driver W) where
  with_mapped-Looked :
      (h g : Host W) (mem_fd : ℤ) (addr : Option ℕ)
      → g.files ≡ h.files + 1
      → g.mappings ≡ h.mappings
      → Looked h (with_mapped dev mem_fd addr g)
  with_mapped-Looked h g mem_fd none f m = (refl, omega arith, m)
  with_mapped-Looked h g mem_fd (some addr) f m = (refl, f, omega arith)

  get_buffer_addr-Looked :
      (fd variable : ℤ) (h : Host W) → Looked h (get_buffer_addr dev fd variable h)
  unfolding get_buffer_addr
  get_buffer_addr-Looked fd variable h =
      either (Looked h) (is_minus_one (dev.get_dma_addr fd variable h.world).0) (refl, refl, refl)
        (either (Looked h)
          (is_minus_one (dev.sys_open "/dev/mem" (dev.get_dma_addr fd variable h.world).2).0)
          (refl, refl, refl) (with_mapped-Looked h _ _ _ refl refl))

  -- eos_get_dma_buffer_addr and eos_get_dma_buffer_addr_channel end in one of two ways: with -1 and
  -- no address, and then as many files are open and as much is mapped as before; or with 0 and an
  -- address, and then one more mapping is in use, and one more file, /dev/mem, is left open.
  pub eos_get_dma_buffer_addr-Looked :
      (fd channel : ℤ) (h : Host W)
      → Looked h (eos_get_dma_buffer_addr dev fd h)
        × Looked h (eos_get_dma_buffer_addr_channel dev fd channel h)
  unfolding eos_get_dma_buffer_addr eos_get_dma_buffer_addr_channel
  eos_get_dma_buffer_addr-Looked fd channel h =
      (get_buffer_addr-Looked fd (pos 0) h, get_buffer_addr-Looked fd channel h)
