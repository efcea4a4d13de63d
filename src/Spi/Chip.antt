-- ===== src/Spi/Chip.antt =====
-- The base class `eos_spi_chip`, eos_lib/eos_spi/spi_85xx.cpp: opening and closing the device
-- node, the transfer that every chip's methods go through, and the settings of the controller.
pub mod Locking
pub mod Transfer
use Prim.Native.Nat.{bit_and, bit_or}
use Prim.Native.String.{String}
use libeos.Prelude.{
  ℕ, ℤ, pos, minus_one, is_minus_one, Bool, true, false, not, Option, none, some, List, ◌∷◌, ◌-◌,
  slice, ◌==◌, ◌&&◌, if◌then◌else◌,
}
use libeos.Spi.Machine.{
  Bus, Sys, Request, wr_mode, wr_bits_per_word, wr_max_speed_hz, received, sent, configured, ok,
  Act, pure, modify, ◌>>=◌, ◌>>◌, lock_spi, unlock_spi,
}

-- The pointer that a transfer is given: `_recvBuf`, `_sendBuf` or NULL.
pub data Buffer : Type 0 where
  recv_buffer : Buffer
  send_buffer : Buffer
  null : Buffer

-- eos_spi_chip::eos_spi_chip(); what lies in the two buffers is left alone. The subclasses'
-- constructors set both callbacks to NULL.
unfoldable pub construct : {W : Type 0} → Sys W → Sys W
construct s = record s {
  recv_len = 0;
  send_len = 0;
  fd = pos 0;
  para = record { clock_polarity = 0; clock_phase = 0; bit_order = 0; max_speed = 0; charlen = 0 };
  enable = none;
  disable = none;
}

-- `(NULL == enable) && (NULL != disable)` or the other way round
abbrev pub just_one : {W : Type 0} → Option (W → W) → Option (W → W) → Bool
just_one none none = false
just_one none (some g) = true
just_one (some f) none = true
just_one (some f) (some g) = false

-- The method cs_init, which has one body in every subclass: the callbacks are stored, and it is
-- an error if just one of them is NULL.
unfoldable pub cs_init : {W : Type 0} → Option (W → W) → Option (W → W) → Act W ℤ
cs_init enable_device disable_device = do
  modify (λ s. record s { enable = enable_device; disable = disable_device })
  pure (if just_one enable_device disable_device then minus_one else pos 0)

-- The assignments to the fields of `para`.
abbrev pub store_para : {W : Type 0} → ℕ → ℕ → ℕ → ℕ → ℕ → Sys W → Sys W
store_para clock_polarity clock_phase bit_order max_speed charlen s = record s {
  para = record {
    clock_polarity = clock_polarity;
    clock_phase = clock_phase;
    bit_order = bit_order;
    max_speed = max_speed;
    charlen = charlen;
  };
}

module _ {W : Type 0} (bus : Bus W) where
  unfoldable pub open_device : String → Act W ℤ
  open_device dev_name s =
      let (fd, w) = bus.sys_open dev_name s.world in
      if is_minus_one fd
      then pure minus_one (record s { world = w })
      else pure (pos 0) (record s { world = w; fd = fd })

  -- close(_fd)
  unfoldable pub close_device : Act W (Unit {0})
  close_device = modify (λ s. record s { world = bus.sys_close s.fd s.world })

  -- read(fd, buf, n) into one of the two buffers
  unfoldable pub read_into : Buffer → ℕ → Act W ℤ
  read_into recv_buffer n s =
      let r = bus.sys_read s.fd s.recv_buf n s.world in
      (ok r.ret, record s { recv_buf = r.buf; world = r.world; log = received n ∷ s.log })
  read_into send_buffer n s =
      let r = bus.sys_read s.fd s.send_buf n s.world in
      (ok r.ret, record s { send_buf = r.buf; world = r.world; log = received n ∷ s.log })
  read_into null n s = (ok minus_one, s)

  -- write(fd, buf, n)
  write_bytes : List ℕ → Act W ℤ
  write_bytes bytes s =
      let (ret, w) = bus.sys_write s.fd bytes s.world in
      (ok ret, record s { world = w; log = sent bytes ∷ s.log })

  unfoldable pub write_from : Buffer → ℕ → Act W ℤ
  unfolding write_bytes
  write_from recv_buffer n s = write_bytes (slice s.recv_buf 0 n) s
  write_from send_buffer n s = write_bytes (slice s.send_buf 0 n) s
  write_from null n s = (ok minus_one, s)

  abbrev is_null : Buffer → Bool
  is_null recv_buffer = false
  is_null send_buffer = false
  is_null null = true

  -- A transfer is one read() or one write(): exactly one of the lengths may be other than 0.
  unfoldable pub spi_transfer : Buffer → ℕ → ℕ → Act W ℤ
  unfolding read_into write_from
  spi_transfer buf rx_len tx_len =
      if is_null buf
      then pure minus_one
      else if not (rx_len == 0) && (tx_len == 0)
      then read_into buf rx_len
      else if (rx_len == 0) && not (tx_len == 0)
      then write_from buf tx_len
      else pure minus_one

  -- ioctl(_fd, SPI_IOC_WR_…, &value)
  write_setting : Request → ℕ → Act W (Unit {0})
  write_setting r v =
      modify λ s. record s { world = bus.wr_ioctl r s.fd v s.world; log = configured r v ∷ s.log }

  -- unsigned char mode = 0; ioctl(_fd, SPI_IOC_RD_MODE, &mode)
  read_mode : Act W ℕ
  read_mode s = let (mode, w) = bus.rd_mode s.fd 0 s.world in (ok mode, record s { world = w })

  -- The two tests of a flag that is to be 1 or 0: the bit is set, cleared, or left alone.
  abbrev pub with_bit : ℕ → ℕ → ℕ → ℕ
  with_bit flag mask mode =
      if flag == 1 then bit_or mode mask else if flag == 0 then bit_and mode (255 - mask) else mode

  unfoldable pub set_bit_per_word : ℕ → Act W ℤ
  unfolding write_setting
  set_bit_per_word n = do write_setting wr_bits_per_word n; pure (pos 0)

  unfoldable pub set_lsb_first : ℕ → Act W ℤ
  unfolding write_setting read_mode
  set_lsb_first lsb_first = do
    mode ← read_mode
    write_setting wr_mode (with_bit lsb_first 0x08 mode)
    pure (pos 0)

  unfoldable pub set_max_speed : ℕ → Act W ℤ
  unfolding write_setting
  set_max_speed n = do write_setting wr_max_speed_hz n; pure (pos 0)

  unfoldable pub set_spi_cpha : ℕ → Act W ℤ
  unfolding write_setting read_mode
  set_spi_cpha spi_cpha =
      if not (spi_cpha == 0) && not (spi_cpha == 1)
      then pure minus_one
      else do mode ← read_mode; write_setting wr_mode (with_bit spi_cpha 0x01 mode); pure (pos 0)

  unfoldable pub set_spi_cpol : ℕ → Act W ℤ
  unfolding write_setting read_mode
  set_spi_cpol spi_cpol =
      if not (spi_cpol == 0) && not (spi_cpol == 1)
      then pure minus_one
      else do mode ← read_mode; write_setting wr_mode (with_bit spi_cpol 0x02 mode); pure (pos 0)

  unfoldable pub spi_init : ℕ → ℕ → ℕ → ℕ → ℕ → Act W ℤ
  unfolding set_bit_per_word set_lsb_first set_max_speed set_spi_cpha set_spi_cpol
  spi_init clock_polarity clock_phase bit_order spiclock_div charlen = do
    set_bit_per_word charlen
    set_lsb_first bit_order
    set_max_speed spiclock_div
    set_spi_cpha clock_phase
    set_spi_cpol clock_polarity
    pure (pos 0)

  unfoldable pub set_para : ℕ → ℕ → ℕ → ℕ → ℕ → Act W ℤ
  unfolding spi_init
  set_para clock_polarity clock_phase bit_order max_speed charlen = do
    lock_spi
    modify (store_para clock_polarity clock_phase bit_order max_speed charlen)
    spi_init clock_polarity clock_phase bit_order max_speed charlen
    unlock_spi
    pure (pos 0)
