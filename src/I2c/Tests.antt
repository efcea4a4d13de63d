-- ===== src/I2c/Tests.antt =====
-- The theorems on the I2C functions at concrete inputs, and runs of them.
use libeos.Prelude.{◌+◌, ◌≡◌, refl, pos, true, some, [], ◌∷◌, ℕ}
use libeos.I2c.{
  Kernel, Client, address_bytes, eos_i2c_write_byte, eos_i2c_read_byte, eos_i2c_receive_byte,
}
use libeos.I2c.Balance.{Returns, Reads, eos_i2c_write_byte-Returns, eos_i2c_read_byte-Reads}

abbrev kernel : Kernel ℕ
kernel = record {
  open_bus = λ n w. (pos 4, w);
  sys_close = λ fd w. w;
  malloc = λ n w. (true, w);
  rdwr = λ fd messages w. (pos 1, (λ j. j + 7), w + 1);
}

abbrev client : Client ℕ
client = record { files = 2; blocks = 5; locks = []; world = 0 }

eos_i2c_write_byte-Returns_example :
    Returns kernel 0 2 3 client (eos_i2c_write_byte kernel 0 0x50 2 0x1234 3 (some (λ j. j)) client)
eos_i2c_write_byte-Returns_example =
    eos_i2c_write_byte-Returns kernel 0 0x50 2 0x1234 3 (some (λ j. j)) client

eos_i2c_read_byte-Reads_example :
    Reads client (eos_i2c_read_byte kernel 0 0x50 2 0x1234 3 (λ j. 0) client)
    × Reads client (eos_i2c_receive_byte kernel 0 0x50 (λ j. 0) 3 client)
eos_i2c_read_byte-Reads_example = eos_i2c_read_byte-Reads kernel 0 0x50 2 0x1234 3 (λ j. 0) client

-- The address 0x1234 in two bytes: the higher one comes out as 0.
address_run : address_bytes 2 0x1234 0xff [] ≡ 0 ∷ 0x34 ∷ []
unfolding address_bytes
address_run = refl
