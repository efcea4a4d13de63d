-- ===== src/Spi/Burst.antt =====
-- What eos_lib/eos_spi/zl30143.cpp, zl30155.cpp, acs9520t.cpp and k10.cpp have in common: they read
-- and write in rounds that all begin with the same bytes.
pub mod Locking
pub mod Reading
use libeos.Prelude.{
  ℕ, zero, suc, ◌+◌, ◌/◌, ◌%◌, ◌^◌, ℤ, pos, to_ℕ, to_int, List, [], ◌∷◌, ◌==◌, if◌then◌else◌,
}
use libeos.Spi.Machine.{
  Bus, Act, pure, gets, modify, ◌>>=◌, ◌>>◌, lock_spi, unlock_spi, put_recv, put_send,
}
use libeos.Spi.Chip.{recv_buffer, send_buffer, spi_transfer}
use libeos.Spi.Memory.{
  cs_transfer, take_recv, fill_send, count_sent, clear_recv_len, clear_send_len, received_len,
}

-- What differs: the bytes that a read and a write begin with, `head_len` of them, the number of
-- data bytes in a round, and what is done before the first.
pub record Burst (W : Type 0) : Type 0 where
  pub head_len : ℕ
  pub read_head : List ℕ
  pub write_head : List ℕ
  pub read_size : ℕ
  pub write_size : ℕ
  pub begin : Act W (Unit {0})

module _ {W : Type 0} (bus : Bus W) where
  -- The register `page_register` is set to the page.
  unfoldable pub select_page : (page_register page_addr : ℕ) → Act W (Unit {0})
  select_page page_register page_addr = do
    put_recv (page_register ∷ page_addr ∷ [])
    cs_transfer (spi_transfer bus recv_buffer 0 2)
    pure tt

  module _ (burst : Burst W) where
    unfoldable pub read_part : ℕ → Act W (Unit {0})
    read_part n = do
      put_recv (burst.head_len ∷ burst.read_head)
      ret ← cs_transfer (spi_transfer bus recv_buffer n 0)
      modify (take_recv (to_ℕ ret))

    unfoldable pub read_rounds : ℕ → Act W (Unit {0})
    read_rounds zero = pure tt
    read_rounds (suc rounds) = do read_part burst.read_size; read_rounds rounds

    unfoldable pub read_rest : ℕ → Act W (Unit {0})
    read_rest n = if n == 0 then pure tt else read_part n

    -- The length is an `int` that is not negative.
    unfoldable pub device_read : (len : ℕ) → Act W ℤ
    device_read len = do
      lock_spi
      modify clear_recv_len
      burst.begin
      read_rounds (len / burst.read_size)
      read_rest (len % burst.read_size)
      n ← gets received_len
      unlock_spi
      pure (to_int n)

    unfoldable pub write_part : ℕ → Act W (Unit {0})
    write_part n = do
      put_send burst.write_head
      modify (fill_send burst.head_len n)
      cs_transfer (spi_transfer bus send_buffer 0 (n + burst.head_len))
      modify (count_sent n)

    unfoldable pub write_rounds : ℕ → Act W (Unit {0})
    write_rounds zero = pure tt
    write_rounds (suc rounds) = do write_part burst.write_size; write_rounds rounds

    unfoldable pub write_rest : ℕ → Act W (Unit {0})
    write_rest n = if n == 0 then pure tt else write_part n

    unfoldable pub device_write : (len : ℕ) → Act W ℤ
    device_write len = do
      lock_spi
      modify clear_send_len
      burst.begin
      write_rounds (len / burst.write_size)
      write_rest (len % burst.write_size)
      unlock_spi
      pure (pos 0)
