-- ===== src/Pci/HotReset/Pulse.antt =====
-- The reset of a controller is a pulse on one bit.
use Prim.Native.Nat.{bit_and, bit_or}
use libeos.Prelude.{
  false, ℕ, ◌+◌, ◌-◌, ◌%◌, ◌^◌, ◌<◌, ◌≡◌, ap, ◌∙◌, pos, some, ltb, ◌==◌, if◌then◌else◌, bit,
  bit-bit_or, bit-bit_and, bit-pow, bit-mask, bit-le, arith,
}
use libeos.Prelude.Method.{ok, finish, call, >>=-ok}
use libeos.Prelude.Words.{Words, IsRegisters, reg_read, reg_write, reg_read_lem, reg_write_lem}
use libeos.Pci.HotReset.{pcie_reset_addr, eos_p204x_pcie_hot_reset, reset_pcie_controller}

set-bits : (c j : ℕ) → bit j (bit_or c (2 ^ 27)) ≡ (if j == 27 then 1 else bit j c)
set-bits c j = ground (arith, bit-bit_or j c (2 ^ 27), bit-pow j 27, bit-le j c)

clear-bits :
    (c j : ℕ)
    → j < 32
    → bit j (bit_and (bit_or c (2 ^ 27)) (2 ^ 32 - 1 - 2 ^ 27)) ≡ (if j == 27 then 0 else bit j c)
clear-bits c j small = ground (
  arith,
  bit-bit_and j (bit_or c (2 ^ 27)) (2 ^ 32 - 1 - 2 ^ 27),
  bit-mask 32 j 27,
  set-bits c j,
  bit-le j c,
)

module _ {S : Type 0} {w : Words S} (regs : IsRegisters w (2 ^ 32)) (usleep : ℕ → S → S) where
  open regs use {Ready, Valid, cell, seen, stored}

  hot_reset :
      (num : ℕ) (s : S)
      → num < 3
      → Valid (pcie_reset_addr num)
      → Ready s
      → ((t : S) → Ready t → Ready (usleep 50 t))
      → let a = pcie_reset_addr num in
        let on = bit_or (cell a s) (2 ^ 27) in
        eos_p204x_pcie_hot_reset w usleep num s ≡ (
          ok (pos 0),
          stored a (bit_and on (2 ^ 32 - 1 - 2 ^ 27)) (usleep 50 (stored a on (seen s))),
        )
  unfolding eos_p204x_pcie_hot_reset
  hot_reset num s few valid ready awake =
      let a = pcie_reset_addr num in
      let on = bit_or (cell a s) (2 ^ 27) in
      let off = bit_and on (2 ^ 32 - 1 - 2 ^ 27) in
      let s1 = seen s in
      let s2 = usleep 50 (stored a on s1) in
      let ready1 = regs.seen-Ready s ready in
      let ready2 = awake _ (regs.stored-Ready a on s1 ready1) in
      let fits : ltb 2 num ≡ false = ground arith in
      rw fits (
        >>=-ok (reg_read w a 0) _ (reg_read_lem regs a 0 s valid ready)
        ∙ >>=-ok (reg_write w a on) _ (reg_write_lem regs a on s1 valid ready1)
        ∙ >>=-ok (reg_write w a off) _ (reg_write_lem regs a off s2 valid ready2))

  -- Controllers 1 to 3, whose register can be reached, in a state that stays ready in the pause: the
  -- call returns 0; it writes the register with bit 27 set and all others as they were, pauses for
  -- 50 microseconds, and writes it with bit 27 cleared and all others as they were.
  pub reset_pcie_controller_lem :
      (contrnum : ℕ) (s : S)
      → contrnum < 3
      → Valid (pcie_reset_addr contrnum)
      → Ready s
      → ((t : S) → Ready t → Ready (usleep 50 t))
      → let a = pcie_reset_addr contrnum in
        let on = bit_or (cell a s) (2 ^ 27) in
        let off = bit_and on (2 ^ 32 - 1 - 2 ^ 27) in
        (call (reset_pcie_controller w usleep (contrnum + 1)) s
          ≡ some (pos 0, stored a off (usleep 50 (stored a on (seen s)))))
        × ((j : ℕ) → j < 32 → bit j on ≡ (if j == 27 then 1 else bit j (cell a s)))
        × ((j : ℕ) → j < 32 → bit j off ≡ (if j == 27 then 0 else bit j (cell a s)))
  unfolding reset_pcie_controller
  reset_pcie_controller_lem num s few valid ready awake =
      let a = pcie_reset_addr num in
      let on = bit_or (cell a s) (2 ^ 27) in
      let index : (num + 1 + 2 ^ 32 - 1) % 2 ^ 32 ≡ num = omega arith in
      (
        ap (λ n. call (eos_p204x_pcie_hot_reset w usleep n) s) index
            ∙ ap finish (hot_reset num s few valid ready awake),
        λ j p. set-bits (cell a s) j,
        λ j p. clear-bits (cell a s) j p,
      )
