-- ===== src/Mmap/Lifetime.antt =====
-- What eos_mmap_init takes from the system, and what eos_mmap_exit gives back.
use libeos.Prelude.{
  either, ℕ, zero, suc, ◌+◌, ◌≡◌, ◌≢◌, refl, ℤ, pos, negsuc, is_minus_one, false, not, Option, none,
  some, ltb, arith,
}
use Prim.Native.String.{String}
use libeos.Mmap.{
  MmapUnit, Process, Os, eos_mmap_init, eos_mmap_exit, with_mutex, with_mapping, node_of,
}

-- `q` holds `n` more files, mappings and blocks of memory than `p`.
pub record HoldsMore {W : Type 0} (n : ℕ) (p q : Process W) : Type 0 where
  pub files_more : q.files ≡ p.files + n
  pub mappings_more : q.mappings ≡ p.mappings + n
  pub blocks_more : q.blocks ≡ p.blocks + n

-- What a call of eos_mmap_init comes to: a unit with the arguments in it and one of each
-- resource, or NULL and none of them; unless pthread_mutex_init failed, where all three are lost.
pub data Begun {W : Type 0} (os : Os W) (lenth phy_offset bits_len : ℕ) (p : Process W)
    : Option MmapUnit × Process W → Type 0 where
  mapped :
      (fd : ℤ) (base : ℕ) (q : Process W)
      → HoldsMore 1 p q
      → Begun os lenth phy_offset bits_len p (
        some (record {
          fd = fd;
          lenth = lenth;
          bits_len = bits_len;
          phy_mmapbase = phy_offset;
          virt_mmapbase = some base;
        }),
        q,
      )
  refused : (q : Process W) → HoldsMore 0 p q → Begun os lenth phy_offset bits_len p (none, q)
  leaked :
      (w : W) (q : Process W)
      → (os.mutex_init w).0 ≢ pos 0
      → HoldsMore 1 p q
      → Begun os lenth phy_offset bits_len p (none, q)

module _ {W : Type 0} (os : Os W) (lenth phy_offset bits_len : ℕ) (p : Process W) where
  with_mutex-Begun :
      (fd : ℤ) (base : ℕ) (w : W) (q : Process W) (ret : ℤ)
      → (os.mutex_init w).0 ≡ ret
      → HoldsMore 1 p q
      → Begun os lenth phy_offset bits_len p (
          with_mutex os ret
            (record {
              fd = fd;
              lenth = lenth;
              bits_len = bits_len;
              phy_mmapbase = phy_offset;
              virt_mmapbase = some base;
            })
            q)
  with_mutex-Begun fd base w q (pos zero) e h = mapped fd base q h
  with_mutex-Begun fd base w q (pos (suc n)) e h = leaked w q (λ f. cc) h
  with_mutex-Begun fd base w q (negsuc n) e h = leaked w q (λ f. cc) h

  gives_none :
      (q : Process W)
      → q.files ≡ p.files
      → q.mappings ≡ p.mappings
      → q.blocks ≡ p.blocks
      → Begun os lenth phy_offset bits_len p (none, q)
  gives_none q f m b =
      refused q
        record { files_more = omega arith; mappings_more = omega arith; blocks_more = omega arith }

  with_mapping-Begun :
      (fd : ℤ) (virt : Option ℕ) (q : Process W)
      → q.files ≡ p.files + 1
      → q.mappings ≡ p.mappings
      → q.blocks ≡ p.blocks + 1
      → Begun os lenth phy_offset bits_len p (with_mapping os lenth phy_offset bits_len fd virt q)
  with_mapping-Begun fd none q f m b = gives_none _ (omega arith) m (omega arith)
  with_mapping-Begun fd (some base) q f m b =
      with_mutex-Begun fd base q.world _ _ refl
        record { files_more = omega arith; mappings_more = omega arith; blocks_more = omega arith }

  -- Every call of eos_mmap_init ends in one of three ways: with a unit that holds the arguments,
  -- and one file, one mapping and one block of memory more in use than before; with NULL, and what
  -- is in use as before; or with NULL after a pthread_mutex_init that failed, and a file, a mapping
  -- and a block lost.
  pub eos_mmap_init-Begun :
      (devname : Option String)
      → Begun os lenth phy_offset bits_len p (eos_mmap_init os lenth phy_offset bits_len devname p)
  unfolding eos_mmap_init
  eos_mmap_init-Begun devname =
      let Ok : Option MmapUnit × Process W → Type 0 = Begun os lenth phy_offset bits_len p in
      either Ok (ltb 0x1000_0000 lenth) (gives_none _ refl refl refl) (
        either Ok (not (os.malloc p.world).0) (gives_none _ refl refl refl) (
          either Ok (is_minus_one (os.sys_open (node_of devname) (os.malloc p.world).1).0)
            (gives_none _ refl refl (omega arith)) (with_mapping-Begun _ _ _ refl refl refl)))

  takes :
      (u : MmapUnit) (r : Option MmapUnit × Process W)
      → Begun os lenth phy_offset bits_len p r
      → r.0 ≡ some u
      → HoldsMore 1 p r.1
  takes u r (mapped fd base q h) e = h
  takes u r (refused q h) e = cc
  takes u r (leaked w q f h) e = cc

  exits :
      (u : MmapUnit) (q : Process W)
      → is_minus_one (os.munmap u.virt_mmapbase u.lenth q.world).0 ≡ false
      → HoldsMore 1 p q
      → let (ret, left, r) = eos_mmap_exit os (some u) q in
        (ret ≡ pos 0) × (left ≡ none) × HoldsMore 0 p r
  unfolding eos_mmap_exit
  exits u q unmapped h = rw (unmapped) (
    refl,
    refl,
    record {
      files_more = let e = h.files_more in omega arith;
      mappings_more = let e = h.mappings_more in omega arith;
      blocks_more = let e = h.blocks_more in omega arith;
    },
  )

  -- After an eos_mmap_init that gave a unit, an eos_mmap_exit whose munmap succeeds returns 0, sets
  -- the pointer to NULL, and leaves as many files, mappings and blocks in use as before both.
  pub eos_mmap_exit-eos_mmap_init :
      (devname : Option String) (u : MmapUnit)
      → let (unit, q) = eos_mmap_init os lenth phy_offset bits_len devname p in
        unit ≡ some u
        → is_minus_one (os.munmap u.virt_mmapbase u.lenth q.world).0 ≡ false
        → let (ret, left, r) = eos_mmap_exit os unit q in
          (ret ≡ pos 0) × (left ≡ none) × HoldsMore 0 p r
  eos_mmap_exit-eos_mmap_init devname u got unmapped =
      rw got (exits u _ unmapped (takes u _ (eos_mmap_init-Begun devname) got))
