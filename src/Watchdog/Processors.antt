-- ===== src/Watchdog/Processors.antt =====
-- The watchdog of each processor: the functions of eos_lib/eos_lib/eos_watchdog.cpp with the numbers
-- of inc/eos_lib.h for it, and where its registers are in the CPLD.
use libeos.Prelude.{ℕ, ◌≤◌, ◌≡◌, ℤ, false, arith}
use libeos.Prelude.Method.{Method}
use libeos.Prelude.Words.{Words}
use libeos.Gpio.Drivers.{PinDriver}
use libeos.Mmap.{MmapUnit, Board, too_long}
use libeos.Mmap.Cells.Windows.{OnDevice}
use libeos.Boards.{p204x, p2020, ls1021, t104x}
use libeos.Watchdog.{
  Dog, eos_soft_feed_dog, eos_set_dog_mode, eos_set_dog_mode_on, eos_get_dog_mode,
  eos_set_feed_dog_time,
}

-- CPLD_FEED_DOG, CPLD_FEED_DOG_TIME and CPLD_FEED_DOG_GPIO; the P204X and the P2020 have no time to
-- set, and `time` is not used for them.
pub record DogRegisters : Type 0 where
  pub feed_dog : ℕ
  pub time : ℕ
  pub gpio : ℕ

abbrev pub p204x_dog : DogRegisters
p204x_dog = record { feed_dog = 0x15; time = 0; gpio = 28 }

abbrev pub p2020_dog : DogRegisters
p2020_dog = record { feed_dog = 0x95; time = 0; gpio = 15 }

abbrev pub ls1021_dog : DogRegisters
ls1021_dog = record { feed_dog = 0x55; time = 0x56; gpio = 14 }

abbrev pub t104x_dog : DogRegisters
t104x_dog = record { feed_dog = 0xb; time = 0xc; gpio = 46 }

module _ {S : Type 0} (driver : PinDriver S) where
  abbrev pub p204x_soft_feed_dog : Method (Dog S) ℤ
  p204x_soft_feed_dog = eos_soft_feed_dog driver p204x_dog.gpio

  abbrev pub p2020_soft_feed_dog : Method (Dog S) ℤ
  p2020_soft_feed_dog = eos_soft_feed_dog driver p2020_dog.gpio

  -- `dog` is ls1021_dog or t104x_dog.
  abbrev pub banks_soft_feed_dog : (dog : DogRegisters) → Method (Dog S) ℤ
  banks_soft_feed_dog dog = eos_soft_feed_dog driver dog.gpio

module _ {S : Type 0} (w : Words S) where
  abbrev pub p204x_set_dog_mode : (flag : ℕ) → Method S ℤ
  p204x_set_dog_mode = eos_set_dog_mode w p204x_dog.feed_dog p204x_dog.time

  abbrev pub p204x_get_dog_mode : (value : ℕ) → Method S ℕ
  p204x_get_dog_mode = eos_get_dog_mode w p204x_dog.feed_dog p204x_dog.time

  abbrev pub p2020_set_dog_mode : (flag : ℕ) → Method S ℤ
  p2020_set_dog_mode = eos_set_dog_mode w p2020_dog.feed_dog p2020_dog.time

  abbrev pub p2020_get_dog_mode : (value : ℕ) → Method S ℕ
  p2020_get_dog_mode = eos_get_dog_mode w p2020_dog.feed_dog p2020_dog.time

  module _ (dog : DogRegisters) where
    abbrev pub banks_set_dog_mode : (flag : ℕ) → Method S ℤ
    banks_set_dog_mode = eos_set_dog_mode_on w dog.feed_dog dog.time

    abbrev pub banks_get_dog_mode : (value : ℕ) → Method S ℕ
    banks_get_dog_mode = eos_get_dog_mode w dog.feed_dog dog.time

    abbrev pub banks_set_feed_dog_time : (count : ℕ) → Method S ℤ
    banks_set_feed_dog_time = eos_set_feed_dog_time w dog.feed_dog dog.time

-- The registers of a watchdog are reached through a window on the CPLD of its board.
abbrev pub AreReached : Board → MmapUnit → DogRegisters → Type 0
AreReached board u dog =
    (too_long board u dog.feed_dog ≡ false) × (too_long board u dog.time ≡ false)

dog-AreReached :
    (board : Board) (u : MmapUnit) (base : ℕ) (dog : DogRegisters)
    → OnDevice board u base 8
    → u.lenth ≡ board.core_cpld_addr_len
    → dog.feed_dog ≤ board.core_cpld_addr_len
    → dog.time ≤ board.core_cpld_addr_len
    → AreReached board u dog
unfolding too_long
dog-AreReached board u base dog o long p q =
    let e = o.of_bits in let f = o.of_device in let g = o.small in (ground arith, ground arith)

-- On each of the four processors, a window on the CPLD of the board's own length reaches the
-- registers of the watchdog.
pub dogs-AreReached :
    (u v x y : MmapUnit) (base : ℕ)
    → OnDevice p204x u base 8
    → OnDevice p2020 v base 8
    → OnDevice ls1021 x base 8
    → OnDevice t104x y base 8
    → u.lenth ≡ p204x.core_cpld_addr_len
    → v.lenth ≡ p2020.core_cpld_addr_len
    → x.lenth ≡ ls1021.core_cpld_addr_len
    → y.lenth ≡ t104x.core_cpld_addr_len
    → AreReached p204x u p204x_dog
      × AreReached p2020 v p2020_dog
      × AreReached ls1021 x ls1021_dog
      × AreReached t104x y t104x_dog
dogs-AreReached u v x y base o p q r e f g h = (
  dog-AreReached p204x u base p204x_dog o e (omega arith) (omega arith),
  dog-AreReached p2020 v base p2020_dog p f (omega arith) (omega arith),
  dog-AreReached ls1021 x base ls1021_dog q g (omega arith) (omega arith),
  dog-AreReached t104x y base t104x_dog r h (omega arith) (omega arith),
)
