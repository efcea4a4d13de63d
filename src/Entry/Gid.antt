-- ===== src/Entry/Gid.antt =====
-- What eos_get_gid reads, and that it gives back the window.
use libeos.Prelude.{subst, ℕ, ◌%◌, ◌^◌, ◌≡◌, ap, ◌∙◌, pos, is_minus_one, false, none, some}
use libeos.Mmap.{MmapUnit, Process, Os, eos_mmap_init, eos_mmap_exit}
use libeos.Mmap.Lifetime.{HoldsMore, eos_mmap_exit-eos_mmap_init}
use libeos.Entry.{id_at, with_id, with_cs2, eos_get_gid}

module _ {W : Type 0} (os : Os W) (localbus_cs2 value : ℕ) (p : Process W) where
  -- Where the window on CS2 is made at `base` and unmapped without an error: eos_get_gid returns 0 and
  -- the byte at `base`, and holds as many files, mappings and blocks as before.
  pub eos_get_gid_lem :
      (u : MmapUnit) (base : ℕ)
      → let (unit, q) = eos_mmap_init os 0x10_0000 localbus_cs2 8 none p in
        unit ≡ some u
        → u.virt_mmapbase ≡ some base
        → is_minus_one (os.munmap u.virt_mmapbase u.lenth q.world).0 ≡ false
        → let r = (eos_mmap_exit os (some u) q).2 in
          (eos_get_gid os localbus_cs2 value p ≡ some (pos 0, q.mem base % 2 ^ 8, r))
          × HoldsMore 0 p r
  unfolding eos_get_gid
  eos_get_gid_lem u base made there unmapped =
      let q = (eos_mmap_init os 0x10_0000 localbus_cs2 8 none p).1 in
      (
        ap (λ c. with_cs2 os value c q) made ∙ ap (λ b. with_id os (id_at os b q) u q) there,
        subst (λ c. HoldsMore 0 p (eos_mmap_exit os c q).2) made
            (eos_mmap_exit-eos_mmap_init os 0x10_0000 localbus_cs2 8 p none u made unmapped).2,
      )
