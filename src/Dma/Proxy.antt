-- ===== src/Dma/Proxy.antt =====
-- eos_lib/eos_lib/eos_cpu_dma_proxy.cpp: transfers through a driver that shares a buffer and a
-- status with the process. `ret` is -1 at the start of both transfer functions, and stays so.
pub mod Transfers
use libeos.Prelude.{
  ℕ, ℤ, pos, minus_one, Bool, not, ◌&&◌, Option, none, some, ◌∷◌, ◌+◌, ◌-◌, ltb, ◌==◌,
  if◌then◌else◌,
}
use libeos.Dma.{
  Blocks, Request, proxy_sg, proxy_memcpy, Driver, Host, sum_lengths, copy_blocks, call_ioctl,
}

-- EOS_DMA_PROXY_MAX_LEN and EOS_DMA_PROXY_MAX_BLOCK
abbrev pub proxy_max_len : ℕ
proxy_max_len = 0x10_0000

abbrev pub proxy_max_block : ℕ
proxy_max_block = 10

-- (direction != 0) && (direction != 1)
abbrev pub is_no_direction : ℕ → Bool
is_no_direction direction = not (direction == 0) && not (direction == 1)

module _ {W : Type 0} (dev : Driver W) where
  unfoldable pub eos_close_dma_proxy : ℤ → Host W → ℤ × Host W
  eos_close_dma_proxy fd h =
      let (ret, w) = dev.sys_close fd h.world in (ret, record h { world = w; files = h.files - 1 })

  abbrev pub take_addr : Option ℕ → Host W → ℤ × Option ℕ × Host W
  take_addr none h = (minus_one, none, h)
  take_addr (some addr) h = (pos 0, some addr, record h { mappings = h.mappings + 1 })

  -- The buffer stands at the front of what is mapped.
  unfoldable pub eos_get_dma_proxy_addr : ℤ → Host W → ℤ × Option ℕ × Host W
  eos_get_dma_proxy_addr fd h =
      let (addr, w) = dev.sys_mmap fd 0 h.world in take_addr addr (record h { world = w })

  -- The code from ioctl() to the return, behind the label `end` too.
  unfoldable pub with_interface : ℤ → Request → Option ℕ → Host W → ℤ × Host W
  with_interface fd r none h = (minus_one, h)
  with_interface fd r (some addr) h =
      let (_, h') = call_ioctl dev fd r (record h { mappings = h.mappings + 1 }) in
      let ret = minus_one in
      let ret' = if not (dev.proxy_status h'.world == 0) then minus_one else ret in
      (ret', record h' { world = dev.sys_munmap addr h'.world; mappings = h'.mappings - 1 })

  unfoldable pub run_transfer : ℤ → Request → Host W → ℤ × Host W
  unfolding with_interface
  run_transfer fd r h =
      let (addr, w) = dev.sys_mmap fd 0 h.world in with_interface fd r addr (record h { world = w })

  unfoldable pub eos_start_dma_proxy_sg_transfer :
      ℤ → Blocks → (num direction : ℕ) → Host W → ℤ × Host W
  unfolding sum_lengths copy_blocks run_transfer
  eos_start_dma_proxy_sg_transfer fd p num direction h =
      if ltb proxy_max_block num
      then (minus_one, h)
      else if ltb proxy_max_len (sum_lengths p 0 num 0)
      then (minus_one, h)
      else if is_no_direction direction
      then (minus_one, h)
      else run_transfer fd (proxy_sg (copy_blocks p 0 num) num direction) h

  unfoldable pub eos_start_dma_proxy_memcpy_transfer :
      ℤ → (addr size direction : ℕ) → Host W → ℤ × Host W
  unfolding run_transfer
  eos_start_dma_proxy_memcpy_transfer fd addr size direction h =
      if ltb proxy_max_len size
      then (minus_one, h)
      else if is_no_direction direction
      then (minus_one, h)
      else run_transfer fd (proxy_memcpy addr size direction) h
