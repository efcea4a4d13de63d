-- ===== src/Gpio/Banks/Window.antt =====
-- The window on the pins, `gpio_mmap`, in eos_lib/eos_lib/eos_cpu_gpio.cpp.
use libeos.Prelude.{ℕ, ℤ, Option, none, some}
use libeos.Mmap.{MmapUnit, Process, Os, eos_mmap_init, eos_mmap_exit}
use libeos.Mmap.Registers.{made, zero_or_minus_one}

-- GPIO_MEMLEN, GPIO_BASEADDR and GPIO_BITLEN
pub record GpioBoard : Type 0 where
  pub gpio_memlen : ℕ
  pub gpio_baseaddr : ℕ
  pub gpio_bitlen : ℕ

module _ {W : Type 0} (os : Os W) (board : GpioBoard) where
  unfoldable pub eos_gpio_mmap_init : Process W → ℤ × Process W
  eos_gpio_mmap_init p =
      let (u, q) =
        eos_mmap_init os board.gpio_memlen board.gpio_baseaddr board.gpio_bitlen none p in
      (made u, record q { gpio_mmap = u })

  unfoldable pub eos_gpio_mmap_exit : Process W → ℤ × Process W
  eos_gpio_mmap_exit p =
      let (ret, u, q) = eos_mmap_exit os p.gpio_mmap p in
      (zero_or_minus_one ret, record q { gpio_mmap = u })

  -- if(gpio_mmap == NULL) { eos_gpio_mmap_init(); }
  unfoldable pub with_gpio_mmap : Option MmapUnit → Process W → Process W
  unfolding eos_gpio_mmap_init
  with_gpio_mmap none p = (eos_gpio_mmap_init p).1
  with_gpio_mmap (some u) p = p

  abbrev pub prepare : Process W → Process W
  prepare p = with_gpio_mmap p.gpio_mmap p
