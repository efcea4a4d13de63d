-- ===== src/Dma/Proxy/Transfers.antt =====
-- What the transfer functions of the DMA proxy do.
use libeos.Prelude.{
  ℕ, ◌%◌, ◌^◌, ◌≤◌, ◌<◌, ◌≡◌, ◌⊎◌, refl, either, ℤ, minus_one, false, Option, none, some, ◌∷◌, ltb,
  arith,
}
use libeos.Dma.{Blocks, Request, proxy_sg, Driver, Host, sum_lengths, copy_blocks}
use libeos.Dma.Lengths.{total, sum_lengths-total}
use libeos.Dma.Proxy.{
  proxy_max_len, proxy_max_block, is_no_direction, with_interface, run_transfer,
  eos_start_dma_proxy_sg_transfer, eos_start_dma_proxy_memcpy_transfer,
}

-- -1, and as much mapped as before.
abbrev pub Fails : {W : Type 0} → Host W → ℤ × Host W → Type 0
Fails h (ret, g) = (ret ≡ minus_one) × (g.mappings ≡ h.mappings) × (g.files ≡ h.files)

module _ {W : Type 0} (dev : Driver W) where
  with_interface-Fails :
      (fd : ℤ) (r : Request) (addr : Option ℕ) (h : Host W)
      → Fails h (with_interface dev fd r addr h)
  unfolding with_interface
  with_interface-Fails fd r none h = (refl, refl, refl)
  with_interface-Fails fd r (some addr) h = (ground arith, omega arith, refl)

  run_transfer-Fails : (fd : ℤ) (r : Request) (h : Host W) → Fails h (run_transfer dev fd r h)
  unfolding run_transfer
  run_transfer-Fails fd r h = with_interface-Fails fd r _ _

  -- Whatever the driver does, both transfer functions return -1, after a transfer without an error
  -- too, and leave as many mappings and files in use as before.
  pub eos_start_dma_proxy-Fails :
      (fd : ℤ) (p : Blocks) (num addr size direction : ℕ) (h : Host W)
      → Fails h (eos_start_dma_proxy_sg_transfer dev fd p num direction h)
        × Fails h (eos_start_dma_proxy_memcpy_transfer dev fd addr size direction h)
  unfolding eos_start_dma_proxy_sg_transfer eos_start_dma_proxy_memcpy_transfer
  eos_start_dma_proxy-Fails fd p num addr size direction h = (
    either (Fails h) (ltb proxy_max_block num) (refl, refl, refl)
        (either (Fails h) (ltb proxy_max_len (sum_lengths p 0 num 0)) (refl, refl, refl)
          (either (Fails h) (is_no_direction direction) (refl, refl, refl)
            (run_transfer-Fails fd _ h))),
    either (Fails h) (ltb proxy_max_len size) (refl, refl, refl)
        (either (Fails h) (is_no_direction direction) (refl, refl, refl)
          (run_transfer-Fails fd _ h)),
  )

  -- At most ten blocks, whose total length is at most 2^20 after it is cut to 32 bits, and direction
  -- 0 or 1: if the shared memory can be mapped, the scatter-gather transfer sends one request, with
  -- the caller's blocks and direction.
  pub eos_start_dma_proxy_sg_transfer_sends :
      (fd : ℤ) (p : Blocks) (num direction : ℕ) (h : Host W) (base : ℕ)
      → num ≤ proxy_max_block
      → total p 0 num % 2 ^ 32 ≤ proxy_max_len
      → direction ≤ 1
      → (dev.sys_mmap fd 0 h.world).0 ≡ some base
      → (eos_start_dma_proxy_sg_transfer dev fd p num direction h).1.requests
        ≡ proxy_sg (copy_blocks p 0 num) num direction ∷ h.requests
  unfolding eos_start_dma_proxy_sg_transfer run_transfer with_interface
  eos_start_dma_proxy_sg_transfer_sends fd p num direction h base few short way mapped =
      let e = sum_lengths-total p num in
      let a : ltb proxy_max_block num ≡ false = ground arith in
      let b : ltb proxy_max_len (sum_lengths p 0 num 0) ≡ false = ground arith in
      let c : is_no_direction direction ≡ false = ground arith in rw (a, b, c, mapped) refl

  -- Too many blocks, a total above 2^20 after it is cut to 32 bits, or a direction above 1: the
  -- scatter-gather transfer returns -1, sends nothing and maps nothing.
  pub eos_start_dma_proxy_sg_transfer_refuses :
      (fd : ℤ) (p : Blocks) (num direction : ℕ) (h : Host W)
      → ((proxy_max_block < num) ⊎ (proxy_max_len < total p 0 num % 2 ^ 32) ⊎ (1 < direction))
      → eos_start_dma_proxy_sg_transfer dev fd p num direction h ≡ (minus_one, h)
  unfolding eos_start_dma_proxy_sg_transfer
  eos_start_dma_proxy_sg_transfer_refuses fd p num direction h bad =
      let e = sum_lengths-total p num in ground arith
