-- ===== src/Pci/Scan.antt =====
-- eos_lib/eos_lib/eos_scan_pcie.cpp: a driver that scans or removes a bus. wri_scan_pcidev and
-- wri_remove_pcidev are the same calls by other names.
use libeos.Prelude.{
  ℕ, ◌+◌, ◌-◌, ◌≡◌, refl, either, ℤ, minus_one, is_minus_one, List, ◌∷◌, if◌then◌else◌, arith,
}

-- `ioctl` is given the descriptor, the command and the number of the bus.
pub record Driver (W : Type 0) : Type 0 where
  pub sys_open : W → ℤ × W
  pub sys_close : ℤ → W → W
  pub ioctl : ℤ → (cmd : ℕ) (bus : ℤ) → W → ℤ × W

-- The requests that were sent, the latest first, and what is open.
pub record Host (W : Type 0) : Type 0 where
  pub requests : List (ℕ × ℤ)
  pub files : ℕ
  pub world : W

module _ {W : Type 0} (dev : Driver W) where
  abbrev pub send : (cmd : ℕ) (busnum : ℤ) → Host W → ℤ × Host W
  send cmd busnum h =
      let (fd, w) = dev.sys_open h.world in
      if is_minus_one fd
      then (minus_one, record h { world = w })
      else let h1 = record h { world = w; files = h.files + 1 } in
        let (ret, w2) = dev.ioctl fd cmd busnum h1.world in
        let h2 = record h1 { world = w2; requests = (cmd, busnum) ∷ h1.requests } in
        (ret, record h2 { world = dev.sys_close fd h2.world; files = h2.files - 1 })

  unfoldable pub eos_scan_pcidev : (busnum : ℤ) → Host W → ℤ × Host W
  eos_scan_pcidev busnum h = send 0x87 busnum h

  unfoldable pub eos_remove_pcidev : (busnum : ℤ) → Host W → ℤ × Host W
  eos_remove_pcidev busnum h = send 0x88 busnum h

  send-files : (cmd : ℕ) (busnum : ℤ) (h : Host W) → (send cmd busnum h).1.files ≡ h.files
  send-files cmd busnum h =
      let (fd, w) = dev.sys_open h.world in
      let (ret, w2) = dev.ioctl fd cmd busnum w in
      either {A = ℤ × Host W} (λ r. r.1.files ≡ h.files) (is_minus_one fd) refl (omega arith)

  -- Whatever the driver does, as many files are open after both functions as before.
  pub eos_scan_pcidev-eos_remove_pcidev :
      (busnum : ℤ) (h : Host W)
      → ((eos_scan_pcidev busnum h).1.files ≡ h.files)
        × ((eos_remove_pcidev busnum h).1.files ≡ h.files)
  unfolding eos_scan_pcidev eos_remove_pcidev
  eos_scan_pcidev-eos_remove_pcidev busnum h = (send-files 0x87 busnum h, send-files 0x88 busnum h)
