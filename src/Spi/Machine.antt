-- ===== src/Spi/Machine.antt =====
-- The state that the methods of eos_lib/inc/eos_spi.h's `eos_spi_chip` and of its subclasses work
-- on, what they use of the kernel, and the monad of code that may return early.
--
-- The kernel and the hardware behind it are the type `W` of worlds and the functions of a `Bus`.
-- `Sys` holds the fields of the object, the caller's buffer `pucDataBuf`, the world, and a trace
-- of what the code did to its surroundings, the latest event first.
use Prim.Native.String.{String}
use libeos.Prelude.{ℕ, ℤ, Buf, Option, none, some, List, ◌∷◌, store}

-- The ioctl requests that write a setting (SPI_IOC_WR_…).
pub data Request : Type 0 where
  wr_mode wr_bits_per_word wr_max_speed_hz : Request

pub data Event : Type 0 where
  -- pthread_mutex_lock and pthread_mutex_unlock on `spi_lock`
  lock : Event
  unlock : Event
  -- a call through the pointer `enable` or `disable`
  select : Event
  deselect : Event
  -- read() of so many bytes, and write() of these bytes
  received : ℕ → Event
  sent : List ℕ → Event
  -- usleep() or sleep(), in microseconds
  waited : ℕ → Event
  configured : Request → ℕ → Event

-- What read() gives back: its result, the buffer, and the world after it.
pub record Reply (W : Type 0) : Type 0 where
  pub ret : ℤ
  pub buf : Buf
  pub world : W

-- The system calls. The driver behind read() takes a request from the buffer that it then fills:
-- the number of bytes to send in byte 0, and these bytes behind it.
pub record Bus (W : Type 0) : Type 0 where
  pub sys_open : String → W → ℤ × W
  pub sys_close : ℤ → W → W
  pub sys_read : ℤ → Buf → ℕ → W → Reply W
  pub sys_write : ℤ → List ℕ → W → ℤ × W
  -- ioctl(fd, SPI_IOC_RD_MODE, &mode): the value of `mode` before, and after
  pub rd_mode : ℤ → ℕ → W → ℕ × W
  pub wr_ioctl : Request → ℤ → ℕ → W → W
  pub usleep : ℕ → W → W

-- EOS_SPI_PARA
pub record Para : Type 0 where
  pub clock_polarity : ℕ
  pub clock_phase : ℕ
  pub bit_order : ℕ
  pub max_speed : ℕ
  pub charlen : ℕ

-- The fields of the object but for `next` and `_curStatus`, which no method reads.
-- A callback `enable` or `disable` is `none` where the pointer is NULL.
pub record Sys (W : Type 0) : Type 0 where
  pub recv_buf : Buf
  pub recv_len : ℕ
  pub send_buf : Buf
  pub send_len : ℕ
  pub para : Para
  pub fd : ℤ
  pub enable : Option (W → W)
  pub disable : Option (W → W)
  pub data_buf : Buf
  pub world : W
  pub log : List Event

-- How a piece of a method ends: it goes on with a value, or the method returns an `int`.
pub data Outcome (A : Type 0) : Type 0 where
  ok : A → Outcome A
  returned : ℤ → Outcome A

abbrev pub Act : Type 0 → Type 0 → Type 0
Act W A = Sys W → Outcome A × Sys W

module _ {W A : Type 0} where
  abbrev pub pure : A → Act W A
  pure a s = (ok a, s)

  -- `return n;`
  abbrev pub return_int : ℤ → Act W A
  return_int n s = (returned n, s)

  abbrev pub gets : (Sys W → A) → Act W A
  gets f s = (ok (f s), s)

infixl 5 ◌>>=◌ ◌>>◌
abbrev pub ◌>>=◌ : {W A B : Type 0} → Act W A → (A → Act W B) → Act W B
◌>>=◌ m f s = let (r, s') = m s in elim r [ ok a ↦ f a s' | returned n ↦ (returned n, s') ]

abbrev pub ◌>>◌ : {W A B : Type 0} → Act W A → Act W B → Act W B
m >> k = m >>= λ _. k

abbrev pub result : {W : Type 0} → Outcome ℤ × Sys W → ℤ × Sys W
result (ok n, s) = (n, s)
result (returned n, s) = (n, s)

-- A whole method: what it returns, and the state after it.
abbrev pub call : {W : Type 0} → Act W ℤ → Sys W → ℤ × Sys W
call m s = result (m s)

module _ {W : Type 0} where
  abbrev pub modify : (Sys W → Sys W) → Act W (Unit {0})
  modify f s = (ok tt, f s)

  abbrev pub emit : Event → Sys W → Sys W
  emit e s = record s { log = e ∷ s.log }

  -- pthread_mutex_lock(&spi_lock) and pthread_mutex_unlock(&spi_lock)
  unfoldable pub lock_spi : Act W (Unit {0})
  lock_spi = modify (emit lock)

  unfoldable pub unlock_spi : Act W (Unit {0})
  unlock_spi = modify (emit unlock)

  unfoldable pub callback : Option (W → W) → Event → Sys W → Sys W
  callback none e s = s
  callback (some f) e s = record s { world = f s.world; log = e ∷ s.log }

  -- if(NULL != enable) { enable(); }
  unfoldable pub call_enable : Act W (Unit {0})
  unfolding callback
  call_enable = modify (λ s. callback s.enable select s)

  -- if(NULL != disable) { disable(); }
  unfoldable pub call_disable : Act W (Unit {0})
  unfolding callback
  call_disable = modify (λ s. callback s.disable deselect s)

  -- _recvBuf[0] = …; _recvBuf[1] = …;
  unfoldable pub put_recv : List ℕ → Act W (Unit {0})
  put_recv bytes = modify (λ s. record s { recv_buf = store s.recv_buf 0 bytes })

  -- _sendBuf[0] = …; _sendBuf[1] = …;
  unfoldable pub put_send : List ℕ → Act W (Unit {0})
  put_send bytes = modify (λ s. record s { send_buf = store s.send_buf 0 bytes })
