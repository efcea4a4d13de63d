-- ===== src/Boards/Reach.antt =====
-- Whether the registers of the pins lie in the window on the processor's registers.
use libeos.Prelude.{◌<◌, ℕ, ◌≡◌, refl, ap, ◌∙◌, either, inl, inr, true, minus_one, ℤ, some, arith}
use libeos.Prelude.Method.{returned, Method, answered, continue_with, >>=-ok}
use libeos.Prelude.Words.{reg_read, read_pair}
use libeos.Mmap.{MmapUnit, Process, Os, Board, too_long}
use libeos.Mmap.Access.{eos_mmap_refuses}
use libeos.Mmap.Registers.Access.{read_there}
use libeos.Mmap.Cells.{variable, after_read, cpu_words}
use libeos.Gpio.{
  Shifter, is_no_bit, load, change_pin, eos_set_gpio_direction, eos_get_gpio_direction,
  eos_set_gpio_status, eos_get_gpio_status,
}
use libeos.Boards.{mpc8308, mpc8308_pins}

module _ {W : Type 0} (os : Os W) (shifter : Shifter) where
  load_refused :
      (board : Board) (u : MmapUnit) (a : ℕ) (p : Process W)
      → p.cpu_mmap ≡ some u
      → too_long board u a ≡ true
      → load shifter (cpu_words os board) a p ≡ (returned minus_one, p)
  unfolding load
  load_refused board u a p there far =
      let var = variable os 4 0 in
      let refused =
        read_there os board u a 1 (some var) p there
        ∙ ap some (eos_mmap_refuses os board u a (some var) 1 p (inr (inl far))).0 in
      >>=-ok (reg_read (cpu_words os board) a 0) _
        (ap (λ t. answered (read_pair (cpu_words os board) (after_read os 4 0 t)) p) refused)

  change_pin_refused :
      (board : Board) (u : MmapUnit) (a gpio_num value : ℕ) (p : Process W)
      → p.cpu_mmap ≡ some u
      → too_long board u a ≡ true
      → change_pin shifter (cpu_words os board) a gpio_num value p ≡ (returned minus_one, p)
  unfolding change_pin
  change_pin_refused board u a gpio_num value p there far =
      either {A = Method (Process W) ℤ} (λ m. m p ≡ (returned minus_one, p)) (is_no_bit value) refl
        (ap (continue_with _) (load_refused board u a p there far))

  out_of_reach :
      (rest : Board) (u : MmapUnit) (a : ℕ)
      → u.lenth ≡ (mpc8308 rest).cpu_ccsr_mem_len
      → u.phy_mmapbase ≡ (mpc8308 rest).cpu_ccsr_base_addr
      → (mpc8308 rest).cpu_ccsr_mem_len < a
      → too_long (mpc8308 rest) u a ≡ true
  unfolding too_long
  out_of_reach rest u a long base far = ground arith

  -- On the MPC8308, in a process with the window on its registers: each of the four functions on
  -- pins returns -1 and changes nothing, whatever the pin and the value, since both registers of the
  -- pins lie behind the end of the window.
  pub mpc8308_pins_out_of_reach :
      (rest : Board) (u : MmapUnit) (gpio_num value : ℕ) (p : Process W)
      → p.cpu_mmap ≡ some u
      → u.lenth ≡ (mpc8308 rest).cpu_ccsr_mem_len
      → u.phy_mmapbase ≡ (mpc8308 rest).cpu_ccsr_base_addr
      → let w = cpu_words os (mpc8308 rest) in
        let dir = mpc8308_pins.gpiodir in
        let dat = mpc8308_pins.gpiodat in
        (eos_set_gpio_direction shifter w dir dat gpio_num value p ≡ (returned minus_one, p))
        × (eos_get_gpio_direction shifter w dir dat gpio_num p ≡ (returned minus_one, p))
        × (eos_set_gpio_status shifter w dir dat gpio_num value p ≡ (returned minus_one, p))
        × (eos_get_gpio_status shifter w dir dat gpio_num p ≡ (returned minus_one, p))
  unfolding eos_set_gpio_direction eos_get_gpio_direction eos_set_gpio_status eos_get_gpio_status
  mpc8308_pins_out_of_reach rest u gpio_num value p there long base =
      let board = mpc8308 rest in
      let dir = out_of_reach rest u mpc8308_pins.gpiodir long base (omega arith) in
      let dat = out_of_reach rest u mpc8308_pins.gpiodat long base (omega arith) in
      (
        change_pin_refused board u _ gpio_num value p there dir,
        ap (continue_with _) (load_refused board u _ p there dir),
        change_pin_refused board u _ gpio_num value p there dat,
        ap (continue_with _) (load_refused board u _ p there dat),
      )
