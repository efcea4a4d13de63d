-- ===== src/Entry/Windows.antt =====
-- What eos_lib_init returns, and which windows there are after it.
use Prim.Native.String.{String}
use libeos.Prelude.{
  ℕ, zero, suc, ◌≡◌, refl, ap, ◌∙◌, either, ℤ, pos, negsuc, minus_one, is_minus_one, Bool, true,
  false, not, ◌&&◌, Bool-cases, inl, inr, Option, none, some, ltb, ◌==◌, arith,
}
use libeos.Mmap.{MmapUnit, Process, Os, Board, node_of, eos_mmap_init, with_mapping, with_mutex}
use libeos.Mmap.Lifetime.{Begun, mapped, refused, leaked, eos_mmap_init-Begun}
use libeos.Mmap.Registers.{made, eos_cpu_mmap_init, eos_core_cpld_mmap_init}
use libeos.Gpio.Banks.Window.{GpioBoard, eos_gpio_mmap_init}
use libeos.Entry.{
  unless_failed, eos_lib_init_p, eos_lib_init_mpc, eos_lib_init_ls1021, eos_lib_init_t104x,
}

abbrev is_mapped : Option ℕ → Bool
is_mapped none = false
is_mapped (some base) = true

-- A window of the given length, place and width, which is mapped.
abbrev pub fits : (lenth phy_offset bits_len : ℕ) → Option MmapUnit → Bool
fits lenth phy_offset bits_len none = false
fits lenth phy_offset bits_len (some u) =
    (u.lenth == lenth)
    && (u.phy_mmapbase == phy_offset)
    && (u.bits_len == bits_len)
    && is_mapped u.virt_mmapbase

-- 0 or -1
abbrev pub result_of : Bool → ℤ
result_of true = pos 0
result_of false = minus_one

module _ {W : Type 0} where
  -- The result says whether what `there` tells of the windows holds.
  abbrev pub Shows : (Process W → Bool) → ℤ × Process W → Type 0
  Shows there (ret, p) = ret ≡ result_of (there p)

  -- The windows that a board asks for.
  abbrev pub has_cpu : Board → Process W → Bool
  has_cpu board p =
      fits board.cpu_ccsr_mem_len board.cpu_ccsr_base_addr board.cpu_ccsr_bits_len p.cpu_mmap

  abbrev pub has_cpld : Board → Process W → Bool
  has_cpld board p =
      fits board.core_cpld_addr_len board.core_cpld_base_addr board.core_cpld_bits_len
        p.core_cpld_mmap

  abbrev pub has_gpio : GpioBoard → Process W → Bool
  has_gpio pins p = fits pins.gpio_memlen pins.gpio_baseaddr pins.gpio_bitlen p.gpio_mmap

-- The same windows in both.
abbrev Same : {W : Type 0} → Process W → Process W → Type 0
Same p q =
    (q.cpu_mmap ≡ p.cpu_mmap) × (q.core_cpld_mmap ≡ p.core_cpld_mmap) × (q.gpio_mmap ≡ p.gpio_mmap)

module _ {W : Type 0} (os : Os W) where
  with_mutex-Same : (ret : ℤ) (u : MmapUnit) (p : Process W) → Same p (with_mutex os ret u p).1
  with_mutex-Same (pos zero) u p = (refl, refl, refl)
  with_mutex-Same (pos (suc n)) u p = (refl, refl, refl)
  with_mutex-Same (negsuc n) u p = (refl, refl, refl)

  with_mapping-Same :
      (lenth phy_offset bits_len : ℕ) (fd : ℤ) (virt : Option ℕ) (p : Process W)
      → Same p (with_mapping os lenth phy_offset bits_len fd virt p).1
  with_mapping-Same lenth phy_offset bits_len fd none p = (refl, refl, refl)
  with_mapping-Same lenth phy_offset bits_len fd (some base) p = with_mutex-Same _ _ _

  eos_mmap_init-Same :
      (lenth phy_offset bits_len : ℕ) (devname : Option String) (p : Process W)
      → Same p (eos_mmap_init os lenth phy_offset bits_len devname p).1
  unfolding eos_mmap_init
  eos_mmap_init-Same lenth phy_offset bits_len devname p =
      let P : Option MmapUnit × Process W → Type 0 = λ r. Same p r.1 in
      either P (ltb 0x1000_0000 lenth) (refl, refl, refl)
        (either P (not (os.malloc p.world).0) (refl, refl, refl)
          (either P (is_minus_one (os.sys_open (node_of devname) (os.malloc p.world).1).0)
            (refl, refl, refl) (with_mapping-Same _ _ _ _ _ _)))

  Begun-fits :
      (lenth phy_offset bits_len : ℕ) (p : Process W) (r : Option MmapUnit × Process W)
      → Begun os lenth phy_offset bits_len p r
      → made r.0 ≡ result_of (fits lenth phy_offset bits_len r.0)
  Begun-fits lenth phy_offset bits_len p r (mapped fd base q h) =
      let a : (lenth == lenth) ≡ true = ground arith in
      let b : (phy_offset == phy_offset) ≡ true = ground arith in
      let c : (bits_len == bits_len) ≡ true = ground arith in rw (a, b, c) refl
  Begun-fits lenth phy_offset bits_len p r (refused q h) = refl
  Begun-fits lenth phy_offset bits_len p r (leaked w q f h) = refl

  eos_mmap_init-fits :
      (lenth phy_offset bits_len : ℕ) (p : Process W)
      → let r = eos_mmap_init os lenth phy_offset bits_len none p in
        made r.0 ≡ result_of (fits lenth phy_offset bits_len r.0)
  eos_mmap_init-fits lenth phy_offset bits_len p =
      Begun-fits lenth phy_offset bits_len p _
        (eos_mmap_init-Begun os lenth phy_offset bits_len p none)

  unless_failed-Shows :
      (there there' : Process W → Bool) (next : Process W → ℤ × Process W) (r : ℤ × Process W)
      → Shows there r
      → ((p : Process W) → Shows there' (next p))
      → ((p : Process W) → there (next p).1 ≡ there p)
      → Shows (λ p. there p && there' p) (unless_failed next r)
  unless_failed-Shows there there' next (ret, p) shows then_shows kept =
      elim (Bool-cases (there p)) [
        | inl e ↦
            let zero : ret ≡ pos 0 = shows ∙ ap result_of e in
            let still : there (next p).1 ≡ true = kept p ∙ e in rw (zero, still) (then_shows p)
        | inr e ↦ let failed : ret ≡ minus_one = shows ∙ ap result_of e in rw (failed, e) refl
      ]

  module _ (board : Board) (pins : GpioBoard) where
    cpu-Shows : (p : Process W) → Shows (has_cpu board) (eos_cpu_mmap_init os board p)
    unfolding eos_cpu_mmap_init
    cpu-Shows p =
        eos_mmap_init-fits board.cpu_ccsr_mem_len board.cpu_ccsr_base_addr board.cpu_ccsr_bits_len p

    cpld-Shows : (p : Process W) → Shows (has_cpld board) (eos_core_cpld_mmap_init os board p)
    unfolding eos_core_cpld_mmap_init
    cpld-Shows p =
        eos_mmap_init-fits board.core_cpld_addr_len board.core_cpld_base_addr
          board.core_cpld_bits_len p

    gpio-Shows : (p : Process W) → Shows (has_gpio pins) (eos_gpio_mmap_init os pins p)
    unfolding eos_gpio_mmap_init
    gpio-Shows p = eos_mmap_init-fits pins.gpio_memlen pins.gpio_baseaddr pins.gpio_bitlen p

    cpld-keeps :
        (p : Process W)
        → let q = (eos_core_cpld_mmap_init os board p).1 in
          (has_cpu board q ≡ has_cpu board p) × (has_gpio pins q ≡ has_gpio pins p)
    unfolding eos_core_cpld_mmap_init
    cpld-keeps p =
        let (cpu, cpld, gpio) =
          eos_mmap_init-Same board.core_cpld_addr_len board.core_cpld_base_addr
            board.core_cpld_bits_len none p in
        (
          ap (fits board.cpu_ccsr_mem_len board.cpu_ccsr_base_addr board.cpu_ccsr_bits_len) cpu,
          ap (fits pins.gpio_memlen pins.gpio_baseaddr pins.gpio_bitlen) gpio,
        )

    cpu-keeps : (p : Process W) → has_gpio pins (eos_cpu_mmap_init os board p).1 ≡ has_gpio pins p
    unfolding eos_cpu_mmap_init
    cpu-keeps p =
        let (cpu, cpld, gpio) =
          eos_mmap_init-Same board.cpu_ccsr_mem_len board.cpu_ccsr_base_addr board.cpu_ccsr_bits_len
            none p in
        ap (fits pins.gpio_memlen pins.gpio_baseaddr pins.gpio_bitlen) gpio

    -- For the P204X, P2020, P1020, both kinds of the MPC8308, the LS1021 and the T104X, whatever the
    -- system does: eos_lib_init returns 0 if after it all the windows that it makes for this
    -- processor are mapped, with the length, the place and the width that its macros give, and -1 if
    -- one of them is not.
    pub eos_lib_init_lem :
        (p : Process W)
        → Shows (λ q. has_cpu board q && has_cpld board q) (eos_lib_init_p os board p)
          × Shows (has_cpu board) (eos_lib_init_mpc os board p)
          × Shows (λ q. has_gpio pins q && has_cpld board q) (eos_lib_init_ls1021 os board pins p)
          × Shows
              (λ q. (has_gpio pins q && has_cpu board q) && has_cpld board q)
              (eos_lib_init_t104x os board pins p)
    unfolding eos_lib_init_p eos_lib_init_mpc eos_lib_init_ls1021 eos_lib_init_t104x
    eos_lib_init_lem p =
        let cpld = eos_core_cpld_mmap_init os board in
        let cpu = eos_cpu_mmap_init os board in
        let gpio = eos_gpio_mmap_init os pins p in
        let both =
          unless_failed-Shows (has_gpio pins) (has_cpu board) cpu gpio (gpio-Shows p) cpu-Shows
            cpu-keeps in
        (
          unless_failed-Shows (has_cpu board) (has_cpld board) cpld (cpu p) (cpu-Shows p) cpld-Shows
              (λ q. (cpld-keeps q).0),
          cpu-Shows p,
          unless_failed-Shows (has_gpio pins) (has_cpld board) cpld gpio (gpio-Shows p) cpld-Shows
              (λ q. (cpld-keeps q).1),
          unless_failed-Shows (λ q. has_gpio pins q && has_cpu board q) (has_cpld board) cpld
              (unless_failed cpu gpio) both cpld-Shows
              (λ q i. (cpld-keeps q).1 i && (cpld-keeps q).0 i),
        )
