-- ===== src/Watchdog/Mode.antt =====
-- The watchdog's mode and its time, in the CPLD.
use libeos.Prelude.{
  ℕ, ◌%◌, ◌^◌, ◌<◌, ◌≡◌, refl, ap, ◌∙◌, pos, minus_one, Bool-cases, ltb, inl, inr, ◌==◌,
  if◌then◌else◌, arith,
}
use libeos.Prelude.Method.{ok, returned, >>=-ok}
use libeos.Prelude.Words.{Words, IsRegisters, reg_read, reg_write, reg_read_lem, reg_write_lem}
use libeos.Watchdog.{
  write_byte, eos_set_dog_mode, eos_set_dog_mode_on, eos_get_dog_mode, eos_set_feed_dog_time,
}

module _ {S : Type 0} {w : Words S} (regs : IsRegisters w 256) (feed_dog time : ℕ)
    (valid : regs.Valid feed_dog) (time_valid : regs.Valid time) where
  open regs use {Ready, cell, seen, stored}

  write_byte_lem :
      (a v : ℕ) (s : S)
      → regs.Valid a
      → Ready s
      → write_byte w feed_dog time a v s ≡ (ok (pos 0), stored a v s)
  unfolding write_byte
  write_byte_lem a v s there ready =
      >>=-ok (reg_write w a v) _ (reg_write_lem regs a v s there ready)

  get_mode_lem :
      (old : ℕ) (s : S)
      → Ready s
      → eos_get_dog_mode w feed_dog time old s ≡ (ok (cell feed_dog s), seen s)
  unfolding eos_get_dog_mode
  get_mode_lem old s ready =
      >>=-ok (reg_read w feed_dog old) _ (reg_read_lem regs feed_dog old s valid ready)

  stored_mode :
      (old v : ℕ) (s : S)
      → v < 256
      → Ready s
      → (eos_get_dog_mode w feed_dog time old (stored feed_dog v s)).0 ≡ ok v
  stored_mode old v s small ready =
      ap (λ r. r.0) (get_mode_lem old (stored feed_dog v s) (regs.stored-Ready feed_dog v s ready))
      ∙ ap ok (regs.cell-stored feed_dog v s small)

  -- The mode is set and read back, whatever the variable held before: the low byte of the flag for
  -- the P204X and the P2020, and for the LS1021 and the T104X 0 for a flag 0 and 0xff for any other.
  pub eos_get_dog_mode-eos_set_dog_mode :
      (flag old : ℕ) (s : S)
      → Ready s
      → let (r, t) = eos_set_dog_mode w feed_dog time flag s in
        let (r', t') = eos_set_dog_mode_on w feed_dog time flag s in
        (r ≡ ok (pos 0))
        × ((eos_get_dog_mode w feed_dog time old t).0 ≡ ok (flag % 2 ^ 8))
        × (r' ≡ ok (pos 0))
        × ((eos_get_dog_mode w feed_dog time old t').0 ≡ ok (if flag == 0 then 0 else 0xff))
  unfolding eos_set_dog_mode eos_set_dog_mode_on
  eos_get_dog_mode-eos_set_dog_mode flag old s ready =
      let full : ℕ = if flag == 0 then 0 else 0xff in
      let once = write_byte_lem feed_dog (flag % 2 ^ 8) s valid ready in
      let on = write_byte_lem feed_dog full s valid ready in
      (
        ap (λ r. r.0) once,
        ap (λ r. (eos_get_dog_mode w feed_dog time old r.1).0) once
            ∙ stored_mode old (flag % 2 ^ 8) s (omega arith) ready,
        ap (λ r. r.0) on,
        ap (λ r. (eos_get_dog_mode w feed_dog time old r.1).0) on
            ∙ stored_mode old full s (ground arith) ready,
      )

  -- A time up to 255 is stored as it is. Any other is refused with -1, and nothing is written.
  pub eos_set_feed_dog_time-cell :
      (count : ℕ) (s : S)
      → Ready s
      → let (r, t) = eos_set_feed_dog_time w feed_dog time count s in
        if◌then◌else◌ {A = Type 0}
          (ltb 255 count)
          ((r ≡ returned minus_one) × (t ≡ s))
          ((r ≡ ok (pos 0)) × (cell time t ≡ count))
  unfolding eos_set_feed_dog_time
  eos_set_feed_dog_time-cell count s ready = elim (Bool-cases (ltb 255 count)) [
    | inl above ↦ rw above (refl, refl)
    | inr below ↦
        let small : count < 256 = ground arith in
        let same : count % 2 ^ 8 ≡ count = omega arith in
        let runs = write_byte_lem time (count % 2 ^ 8) s time_valid ready in
        rw below (
          ap (λ r. r.0) runs,
          ap (λ r. cell time r.1) runs
              ∙ regs.cell-stored time (count % 2 ^ 8) s (omega arith)
              ∙ same,
        )
  ]
