-- ===== src/Spi/Chip/Locking.antt =====
-- The base class keeps the discipline of the lock and the chip select line.
use libeos.Prelude.{ℕ, pos, Bool, arith}
use libeos.Spi.Machine.{Bus}
use libeos.Spi.Discipline.{idle, held, Steps, lock_spi-Steps, unlock_spi-Steps}
use libeos.Spi.Chip.{
  set_bit_per_word, set_lsb_first, set_max_speed, set_spi_cpha, set_spi_cpol, spi_init, set_para,
  store_para,
}
use libeos.Spi.Triple.{Triple-then, Triple-pure, Triple-modify}

module _ {W : Type 0} (bus : Bus W) (wired : Bool) where
  set_bit_per_word-Steps : (n : ℕ) → Steps wired held (set_bit_per_word bus n) held
  unfolding set_bit_per_word
  set_bit_per_word-Steps n = record { at = λ s h. ground arith }

  set_lsb_first-Steps : (n : ℕ) → Steps wired held (set_lsb_first bus n) held
  unfolding set_lsb_first
  set_lsb_first-Steps n = record { at = λ s h. ground arith }

  set_max_speed-Steps : (n : ℕ) → Steps wired held (set_max_speed bus n) held
  unfolding set_max_speed
  set_max_speed-Steps n = record { at = λ s h. ground arith }

  set_spi_cpha-Steps : (n : ℕ) → Steps wired held (set_spi_cpha bus n) held
  unfolding set_spi_cpha
  set_spi_cpha-Steps n = record { at = λ s h. ground arith }

  set_spi_cpol-Steps : (n : ℕ) → Steps wired held (set_spi_cpol bus n) held
  unfolding set_spi_cpol
  set_spi_cpol-Steps n = record { at = λ s h. ground arith }

  spi_init-Steps : (p a o d c : ℕ) → Steps wired held (spi_init bus p a o d c) held
  unfolding spi_init
  spi_init-Steps p a o d c = Triple-then (set_bit_per_word-Steps c) (
      Triple-then (set_lsb_first-Steps o) (
        Triple-then (set_max_speed-Steps d) (
          Triple-then (set_spi_cpha-Steps a)
            (Triple-then (set_spi_cpol-Steps p) (Triple-pure (pos 0))))))

  pub set_para-Steps : (p a o d c : ℕ) → Steps wired idle (set_para bus p a o d c) idle
  unfolding set_para
  set_para-Steps p a o d c = Triple-then (lock_spi-Steps wired) (
      Triple-then (Triple-modify (store_para p a o d c) (λ s h. ground arith)) (
        Triple-then (spi_init-Steps p a o d c)
          (Triple-then (unlock_spi-Steps wired) (Triple-pure (pos 0)))))
