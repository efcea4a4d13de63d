-- ===== src/I2c.antt =====
-- eos_lib/eos_lib/eos_cpu_i2c.cpp: messages to devices on the I2C buses, through the kernel's
-- I2C_RDWR request, one at a time under the mutex `eos_i2c_device_lock`.
--
-- The result of a function is `none` where it follows a NULL pointer.
pub mod Balance
mod Tests
use Prim.Native.Nat.{bit_and}
use libeos.Prelude.{
  ℕ, zero, suc, ◌+◌, ◌-◌, ◌*◌, ◌%◌, ◌^◌, ℤ, pos, minus_one, is_neg, is_minus_one, Bool, true, not,
  ◌&&◌, Option, none, some, List, [], ◌∷◌, ◌++◌, Buf, slice, memcpy, ltb, ◌==◌, if◌then◌else◌,
}

-- pthread_mutex_lock and pthread_mutex_unlock on `eos_i2c_device_lock`
pub data LockEvent : Type 0 where
  lock : LockEvent
  unlock : LockEvent

-- i2c_msg; the buffer of a message that reads is empty.
pub record Message : Type 0 where
  pub addr : ℕ
  pub flags : ℕ
  pub len : ℕ
  pub buf : List ℕ

-- What the code uses of the system. `open_bus n` opens /dev/i2c-n; `rdwr` is the ioctl I2C_RDWR,
-- which gives its result and what it read.
pub record Kernel (W : Type 0) : Type 0 where
  pub open_bus : ℕ → W → ℤ × W
  pub sys_close : ℤ → W → W
  pub malloc : ℕ → W → Bool × W
  pub rdwr : ℤ → List Message → W → ℤ × Buf × W

-- The process: open files, blocks of memory in use, and the events on the mutex, latest first.
pub record Client (W : Type 0) : Type 0 where
  pub files : ℕ
  pub blocks : ℕ
  pub locks : List LockEvent
  pub world : W

-- The loop for(i = reg_addr_len; i > 0; i--), which fills the address bytes from the last on; what
-- is stored is cut to a byte, and `shift` to 32 bits.
unfoldable pub address_bytes : (i reg_addr shift : ℕ) → List ℕ → List ℕ
address_bytes zero reg_addr shift bytes = bytes
address_bytes (suc i) reg_addr shift bytes =
    address_bytes i reg_addr (shift * 2 ^ 8 % 2 ^ 32) (bit_and reg_addr shift % 256 ∷ bytes)

-- The bytes behind the address: the caller's, or zeros where `data` is NULL.
abbrev pub payload : Option Buf → ℕ → List ℕ
payload none len = slice (λ j. 0) 0 len
payload (some b) len = slice b 0 len

module _ {W : Type 0} where
  abbrev pub acquire : Client W → Client W
  acquire c = record c { locks = lock ∷ c.locks }

  abbrev pub release : Client W → Client W
  release c = record c { locks = unlock ∷ c.locks }

  -- free(), of what malloc() gave
  abbrev pub free_block : Bool → Client W → Client W
  free_block got c = if got then record c { blocks = c.blocks - 1 } else c

  abbrev pub take_block : Bool → W → Client W → Client W
  take_block got w c =
      if got then record c { blocks = c.blocks + 1; world = w } else record c { world = w }

module _ {W : Type 0} (kernel : Kernel W) where
  abbrev pub take_file : W → Client W → Client W
  take_file w c = record c { files = c.files + 1; world = w }

  abbrev pub close_bus : ℤ → Client W → Client W
  close_bus fd c = record c { files = c.files - 1; world = kernel.sys_close fd c.world }

  abbrev pub moved_on : W → Client W → Client W
  moved_on w c = record c { world = w }

  unfoldable pub eos_i2c_write_byte :
      (bus dev_addr reg_addr_len reg_addr len : ℕ) → Option Buf → Client W → Option (ℤ × Client W)
  unfolding address_bytes
  eos_i2c_write_byte bus dev_addr reg_addr_len reg_addr len items c =
      let c1 = acquire c in
      let (fd, w1) = kernel.open_bus bus c1.world in
      if is_minus_one fd
      then some (minus_one, release (moved_on w1 c1))
      else let c2 = take_file w1 c1 in
        if ltb 4 reg_addr_len
        then some (minus_one, release (close_bus fd c2))
        else let size = (reg_addr_len + len) % 2 ^ 32 in
          let (got, w2) = kernel.malloc size w1 in
          if not got && not (size == 0)
          then none
          else let message : Message = record {
            addr = dev_addr;
            flags = 0;
            len = size % 2 ^ 16;
            buf = address_bytes reg_addr_len reg_addr 0xff [] ++ payload items len;
          } in
            let (ret, _, w3) = kernel.rdwr fd (message ∷ []) w2 in
            let c4 = moved_on w3 (take_block got w2 c2) in
            if is_neg ret
            then some (minus_one, release (close_bus fd (free_block got c4)))
            else some (pos 0, release (close_bus fd (free_block got c4)))

  unfoldable pub eos_i2c_write_byte_data :
      (bus dev_addr reg_addr_len reg_addr value : ℕ) → Client W → Option (ℤ × Client W)
  unfolding eos_i2c_write_byte
  eos_i2c_write_byte_data bus dev_addr reg_addr_len reg_addr value c =
      eos_i2c_write_byte bus dev_addr reg_addr_len reg_addr 1 (some (λ j. value)) c

  unfoldable pub eos_i2c_send_byte : (bus dev_addr command : ℕ) → Client W → Option (ℤ × Client W)
  unfolding eos_i2c_write_byte
  eos_i2c_send_byte bus dev_addr command c = eos_i2c_write_byte bus dev_addr 1 command 0 none c

  -- The caller's buffer comes back as the second component.
  unfoldable pub eos_i2c_read_byte :
      (bus dev_addr reg_addr_len reg_addr len : ℕ) → Buf → Client W → ℤ × Buf × Client W
  unfolding address_bytes
  eos_i2c_read_byte bus dev_addr reg_addr_len reg_addr len items c =
      let (fd, w1) = kernel.open_bus bus c.world in
      if is_minus_one fd
      then (minus_one, items, moved_on w1 c)
      else let c1 = acquire (take_file w1 c) in
        if ltb 4 reg_addr_len
        then (minus_one, items, close_bus fd (release c1))
        else let (got, w2) = kernel.malloc reg_addr_len w1 in
          if not got
          then (minus_one, items, close_bus fd (release (moved_on w2 c1)))
          else let c2 = take_block true w2 c1 in
            let (got', w3) = kernel.malloc len w2 in
            if not got'
            then (minus_one, items, close_bus fd (release (free_block true (moved_on w3 c2))))
            else let c3 = take_block true w3 c2 in
              let request : Message = record {
                addr = dev_addr;
                flags = 0;
                len = reg_addr_len;
                buf = address_bytes reg_addr_len reg_addr 0xff [];
              } in
              let answer : Message = record {
                addr = dev_addr;
                flags = 1;
                len = len % 2 ^ 16;
                buf = [];
              } in
              let (ret, got_bytes, w4) = kernel.rdwr fd (request ∷ answer ∷ []) w3 in
              let c4 =
                close_bus fd (release (free_block true (free_block true (moved_on w4 c3)))) in
              if is_neg ret
              then (minus_one, items, c4)
              else (pos 0, memcpy items 0 got_bytes 0 len, c4)

  unfoldable pub eos_i2c_receive_byte :
      (bus dev_addr : ℕ) → Buf → (len : ℕ) → Client W → ℤ × Buf × Client W
  eos_i2c_receive_byte bus dev_addr items len c =
      let (fd, w1) = kernel.open_bus bus c.world in
      if is_minus_one fd
      then (minus_one, items, moved_on w1 c)
      else let c1 = acquire (take_file w1 c) in
        let (got, w2) = kernel.malloc len w1 in
        if not got
        then (minus_one, items, close_bus fd (release (moved_on w2 c1)))
        else let answer : Message = record {
          addr = dev_addr;
          flags = 1;
          len = len % 2 ^ 16;
          buf = [];
        } in
          let (ret, got_bytes, w3) = kernel.rdwr fd (answer ∷ []) w2 in
          let c3 = close_bus fd (release (free_block true (moved_on w3 (take_block true w2 c1)))) in
          if is_neg ret then (minus_one, items, c3) else (pos 0, memcpy items 0 got_bytes 0 len, c3)
