-- ===== src/I2c/Balance.antt =====
-- What the functions on the I2C buses have in use when they return.
use libeos.Prelude.{
  ℕ, ◌+◌, ◌-◌, ◌%◌, ◌^◌, ◌≡◌, ◌⊎◌, inl, inr, refl, either, either_with, Bool, false, ◌&&◌, ◌==◌, ℤ,
  is_neg, is_minus_one, true, not, Option, none, some, Buf, ◌∷◌, ltb, arith,
}
use libeos.I2c.{
  acquire, release, close_bus, free_block, moved_on, take_block, take_file, lock, unlock, Kernel,
  Client, eos_i2c_write_byte, eos_i2c_read_byte, eos_i2c_receive_byte,
}

-- As many files and blocks in use as before, and the mutex not touched, or taken and given back.
pub record Settled {W : Type 0} (c d : Client W) : Type 0 where
  pub same_files : d.files ≡ c.files
  pub same_blocks : d.blocks ≡ c.blocks
  pub lock_free : (d.locks ≡ c.locks) ⊎ (d.locks ≡ unlock ∷ lock ∷ c.locks)

taken :
    {W : Type 0} {c : Client W} {w : W}
    → Settled c (record c { locks = unlock ∷ lock ∷ c.locks; world = w })
taken = record { same_files = refl; same_blocks = refl; lock_free = inr refl }

again :
    {W : Type 0} {c : Client W} {w : W}
    → Settled c (record c { files = c.files + 1 - 1; locks = unlock ∷ lock ∷ c.locks; world = w })
again = record { same_files = omega arith; same_blocks = refl; lock_free = inr refl }

freed :
    {W : Type 0} {c : Client W} {w : W}
    → Settled c (record {
      files = c.files + 1 - 1;
      blocks = c.blocks + 1 - 1;
      locks = unlock ∷ lock ∷ c.locks;
      world = w;
    })
freed = record { same_files = omega arith; same_blocks = omega arith; lock_free = inr refl }

freed_twice :
    {W : Type 0} {c : Client W} {w : W}
    → Settled c (record {
      files = c.files + 1 - 1;
      blocks = c.blocks + 1 + 1 - 1 - 1;
      locks = unlock ∷ lock ∷ c.locks;
      world = w;
    })
freed_twice = record { same_files = omega arith; same_blocks = omega arith; lock_free = inr refl }

untouched : {W : Type 0} {c : Client W} {w : W} → Settled c (record c { world = w })
untouched = record { same_files = refl; same_blocks = refl; lock_free = inl refl }

-- What a write comes to: Settled, or a NULL pointer that is followed, and then /dev/i2c was open,
-- the address has at most four bytes, and malloc gave no memory for a message that is not empty.
abbrev pub Returns :
    {W : Type 0} → Kernel W → (bus reg_addr_len len : ℕ) → Client W → Option (ℤ × Client W) → Type 0
Returns kernel bus reg_addr_len len c none =
    let (fd, w) = kernel.open_bus bus c.world in
    let size = (reg_addr_len + len) % 2 ^ 32 in
    (is_minus_one fd ≡ false)
    × (ltb 4 reg_addr_len ≡ false)
    × ((kernel.malloc size w).0 ≡ false)
    × ((size == 0) ≡ false)
Returns kernel bus reg_addr_len len c (some (ret, d)) = Settled c d

abbrev pub Reads : {W : Type 0} → Client W → ℤ × Buf × Client W → Type 0
Reads c (ret, items, d) = Settled c d

module _ {W : Type 0} (kernel : Kernel W) where
  given_back :
      (got : Bool) (fd : ℤ) (c : Client W) (v w x : W)
      → Settled c (
          release (
            close_bus kernel fd (
              free_block got
                (moved_on kernel x (take_block got w (take_file kernel v (acquire c)))))))
  given_back true fd c v w x = freed
  given_back false fd c v w x = again

  -- Whatever the system calls do, eos_i2c_write_byte follows a NULL pointer only where malloc gives
  -- no memory for the message. Everywhere else it returns, as many files and blocks of memory are in
  -- use as before, and the mutex was not touched, or taken and given back.
  pub eos_i2c_write_byte-Returns :
      (bus dev_addr reg_addr_len reg_addr len : ℕ) (items : Option Buf) (c : Client W)
      → Returns kernel bus reg_addr_len len c
          (eos_i2c_write_byte kernel bus dev_addr reg_addr_len reg_addr len items c)
  unfolding eos_i2c_write_byte
  eos_i2c_write_byte-Returns bus dev_addr reg_addr_len reg_addr len items c =
      let Ok = Returns kernel bus reg_addr_len len c in
      let (fd, w1) = kernel.open_bus bus c.world in
      let size = (reg_addr_len + len) % 2 ^ 32 in
      either_with Ok (is_minus_one fd) (λ e. taken)
        (λ opened.
          either_with Ok (ltb 4 reg_addr_len) (λ e. again)
            (λ short.
              let (got, w2) = kernel.malloc size w1 in
              either_with Ok (not got && not (size == 0))
                (λ bad. (opened, short, ground arith, ground arith))
                (λ fine.
                  let back = given_back got fd c w1 w2 in
                  either Ok (is_neg (kernel.rdwr fd _ w2).0) (back _) (back _))))

  -- eos_i2c_read_byte and eos_i2c_receive_byte, whatever the system calls do, leave as many files and
  -- blocks of memory in use as before, and the mutex not touched or taken and given back.
  pub eos_i2c_read_byte-Reads :
      (bus dev_addr reg_addr_len reg_addr len : ℕ) (items : Buf) (c : Client W)
      → Reads c (eos_i2c_read_byte kernel bus dev_addr reg_addr_len reg_addr len items c)
        × Reads c (eos_i2c_receive_byte kernel bus dev_addr items len c)
  unfolding eos_i2c_read_byte eos_i2c_receive_byte
  eos_i2c_read_byte-Reads bus dev_addr reg_addr_len reg_addr len items c =
      let (fd, w1) = kernel.open_bus bus c.world in
      let w2 = (kernel.malloc reg_addr_len w1).1 in
      (
        either (Reads c) (is_minus_one fd) untouched (
            either (Reads c) (ltb 4 reg_addr_len) again (
              either (Reads c) (not (kernel.malloc reg_addr_len w1).0) again (
                either (Reads c) (not (kernel.malloc len w2).0) freed
                  (either (Reads c) (is_neg (kernel.rdwr fd _ _).0) freed_twice freed_twice)))),
        either (Reads c) (is_minus_one fd) untouched (
            either (Reads c) (not (kernel.malloc len w1).0) again
              (either (Reads c) (is_neg (kernel.rdwr fd _ _).0) freed freed)),
      )
