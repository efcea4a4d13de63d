-- ===== src/Spi/Sample.antt =====
-- A memory chip that behaves as the round trips want it, for the tests: it shows that their
-- hypotheses can be met, and runs the drivers.
use Prim.Native.Nat.{bit_and}
use libeos.Prelude.{
  ℕ, zero, suc, ◌+◌, ◌-◌, ◌≤◌, ◌<◌, ◌≡◌, ◌∙◌, refl, sym, ap, ℤ, pos, Bool, true, false, List, [],
  ◌∷◌, ◌++◌, length, Buf, slice, store, ltb, ◌==◌, if◌then◌else◌, arith, some,
}
use libeos.Spi.Machine.{Bus, Reply, Sys}
use libeos.Spi.Memory.Behaviour.{MemoryChip, decode, is_positive}

pub record Chip : Type 0 where
  pub cells : Buf
  pub latch : Bool
  pub busy : ℕ

-- The address bytes of a write command, and the data behind them.
abbrev pub front : ℕ → List ℕ → List ℕ
front zero xs = []
front (suc n) [] = []
front (suc n) (x ∷ xs) = x ∷ front n xs

abbrev pub behind : ℕ → List ℕ → List ℕ
behind zero xs = xs
behind (suc n) [] = []
behind (suc n) (x ∷ xs) = behind n xs

module _ (addr_len slack : ℕ) where
  -- A request asks for the data at an address, or for the status.
  abbrev pub answer : Buf → ℕ → Chip → Reply Chip
  answer b n w =
      if b 1 == 0x03
      then record {
        ret = pos n;
        buf = λ j. if ltb j n then w.cells (decode (slice b 2 addr_len) + j) else b j;
        world = w;
      }
      else record {
        ret = pos n;
        buf = λ j. if j == 0 then is_positive w.busy else b j;
        world = record w { busy = w.busy - 1 };
      }

  abbrev pub obey : ℕ → List ℕ → Chip → Chip
  obey code rest w =
      if code == 0x06
      then record w { latch = true }
      else if code == 0x02
      then record {
        cells = store w.cells (decode (front addr_len rest)) (behind addr_len rest);
        latch = false;
        busy = slack;
      }
      else w

  abbrev pub take_bytes : List ℕ → Chip → ℤ × Chip
  take_bytes [] w = (pos 0, w)
  take_bytes (code ∷ rest) w = (pos (suc (length rest)), obey code rest w)

  abbrev pub sample : Bus Chip
  sample = record {
    sys_open = λ name w. (pos 3, w);
    sys_close = λ fd w. w;
    sys_read = λ fd b n w. answer b n w;
    sys_write = λ fd bytes w. take_bytes bytes w;
    rd_mode = λ fd mode w. (0, w);
    wr_ioctl = λ request fd v w. w;
    usleep = λ us w. w;
  }

front-append : (n : ℕ) (xs ys : List ℕ) → length xs ≡ n → front n (xs ++ ys) ≡ xs
front-append zero [] ys h = refl
front-append zero (x ∷ xs) ys h = absurd (omega arith)
front-append (suc n) [] ys h = absurd (omega arith)
front-append (suc n) (x ∷ xs) ys h = ap (λ (t : List ℕ). x ∷ t) (front-append n xs ys (omega arith))

behind-append : (n : ℕ) (xs ys : List ℕ) → length xs ≡ n → behind n (xs ++ ys) ≡ ys
behind-append zero [] ys h = refl
behind-append zero (x ∷ xs) ys h = absurd (omega arith)
behind-append (suc n) [] ys h = absurd (omega arith)
behind-append (suc n) (x ∷ xs) ys h = behind-append n xs ys (omega arith)

module _ (addr_len capacity slack : ℕ) where
  read_frame :
      (b : Buf) (bytes : List ℕ)
      → slice b 0 (addr_len + 2) ≡ (addr_len + 1) ∷ 0x03 ∷ bytes
      → (b 1 ≡ 0x03) × (slice b 2 addr_len ≡ bytes)
  unfolding slice
  read_frame b bytes h =
      let e : addr_len + 2 ≡ suc (suc addr_len) = omega arith in
      let h' = sym (ap (slice b 0) e) ∙ h in (cc h', cc h')

  pub sample_read_data :
      (b : Buf) (bytes : List ℕ) (n : ℕ) (w : Chip)
      → slice b 0 (addr_len + 2) ≡ (addr_len + 1) ∷ 0x03 ∷ bytes
      → w.busy ≡ 0
      → let r = answer addr_len slack b n w in
        (r.ret ≡ pos n)
        × ((j : ℕ) → j < n → r.buf j ≡ w.cells (decode bytes + j))
        × (r.world.cells ≡ w.cells)
        × (r.world.busy ≡ 0)
  sample_read_data b bytes n w frame ready =
      let (is_read, at) = read_frame b bytes frame in
      rw is_read (refl, λ j h. rw (at) (ground arith), refl, ready)

  status_frame : (b : Buf) → slice b 0 2 ≡ 1 ∷ 0x05 ∷ [] → b 1 ≡ 0x05
  unfolding slice
  status_frame b h = cc h

  one_bit : (n : ℕ) → bit_and (is_positive n) 0x01 ≡ is_positive n
  one_bit zero = refl
  one_bit (suc n) = refl

  pub sample_read_busy :
      (b : Buf) (w : Chip)
      → slice b 0 2 ≡ 1 ∷ 0x05 ∷ []
      → let r = answer addr_len slack b 1 w in
        (r.ret ≡ pos 1)
        × (bit_and (r.buf 0) 0x01 ≡ is_positive w.busy)
        × (r.world.cells ≡ w.cells)
        × (r.world.busy ≡ w.busy - 1)
  sample_read_busy b w frame = rw (status_frame b frame) (refl, one_bit w.busy, refl, refl)

  pub sample_write_data :
      (bytes items : List ℕ) (w : Chip)
      → length bytes ≡ addr_len
      → let r = take_bytes addr_len slack (0x02 ∷ (bytes ++ items)) w in
        (r.0 ≡ pos (suc (length (bytes ++ items))))
        × (r.1.cells ≡ store w.cells (decode bytes) items)
        × (r.1.busy ≤ slack)
  sample_write_data bytes items w wide = (
    refl,
    rw (front-append addr_len bytes items wide, behind-append addr_len bytes items wide),
    omega arith,
  )

  -- The sample chip meets the data sheet.
  abbrev pub sample-MemoryChip : MemoryChip (sample addr_len slack) addr_len capacity slack
  sample-MemoryChip = record {
    mem = λ w. w.cells;
    write_enabled = λ w. w.latch;
    busy = λ w. w.busy;
    read_data = λ fd b bytes n w frame fits ready. sample_read_data b bytes n w frame ready;
    read_busy = λ fd b w frame. sample_read_busy b w frame;
    enable_write = λ fd w. (refl, refl, refl, refl);
    write_data = λ fd bytes items w wide fits on ready. sample_write_data bytes items w wide;
    sleep_keeps = λ us w. (refl, omega arith);
  }

-- An object whose callbacks do nothing, with the bytes 1, 2, 3, … in the caller's buffer.
abbrev pub blank : Sys Chip
blank = record {
  recv_buf = λ j. 0;
  recv_len = 0;
  send_buf = λ j. 0;
  send_len = 0;
  para = record { clock_polarity = 0; clock_phase = 0; bit_order = 0; max_speed = 0; charlen = 8 };
  fd = pos 3;
  enable = some (λ w. w);
  disable = some (λ w. w);
  data_buf = λ j. j + 1;
  world = record { cells = λ j. 0; latch = false; busy = 0 };
  log = [];
}
