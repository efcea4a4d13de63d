-- ===== src/Spi/Memory/Writing.antt =====
-- Writing to a memory chip: the chip receives the caller's bytes.
use native.Mathlib.Nat.{div-add-mod'}
use libeos.Prelude.{
  ℕ, zero, suc, ◌+◌, ◌-◌, ◌*◌, ◌/◌, ◌%◌, ◌≤◌, ◌<◌, ◌≡◌, refl, subst, pos, List, Buf, arith, ◌==◌,
}
use libeos.Spi.Machine.{Bus, Sys, Act, pure, emit, lock, unlock, lock_spi, unlock_spi}
use libeos.Spi.Memory.{
  write_part, write_rounds, write_rest, device_write, clear_send_len, ulong_mod, max_write_buff_len,
}
use libeos.Spi.Memory.Behaviour.{MemoryChip, Encodes}
use libeos.Spi.Memory.WriteRound
use libeos.Spi.Memory.WriteRound.{Holds, Waits, write_part-Triple}
use libeos.Spi.Triple.{Triple, Never, Triple-bind, Triple-then, Triple-modify, Triple-if}

module _ {W : Type 0} {bus : Bus W} {addr_len capacity slack : ℕ}
    (c : MemoryChip bus addr_len capacity slack) (addr_bytes : ℕ → List ℕ)
    (enc : Encodes addr_bytes addr_len capacity) (source : Buf) (before : Buf) (start : ℕ) where
  abbrev pub Ready : ℕ → Sys W → Type 0
  Ready = WriteRound.Ready c addr_bytes enc source before start

  -- Before the write: what `Ready 0` says, with the count that the write will start from.
  abbrev pub Begins : Sys W → Type 0
  Begins s =
      Holds c addr_bytes enc source before start 0 0 s.enable s.disable s.world 0 s.data_buf
      × (c.busy s.world ≡ 0)

  abbrev size : ℕ
  size = max_write_buff_len - addr_len - 1

  module _ (small : capacity < ulong_mod) (room : addr_len < 31) {wait : Act W (Unit {0})}
      (waits : Waits c addr_bytes enc source before start wait) where
    part-Triple :
        (k n : ℕ)
        → 0 < n
        → start + k + n ≤ capacity
        → Triple
            (Ready k)
            (write_part bus addr_len addr_bytes wait (start + k) n)
            (λ _. Ready (k + n))
            Never
    part-Triple = write_part-Triple c addr_bytes enc source before start waits

    write_rounds-Triple :
        (rounds k m addr : ℕ)
        → addr ≡ start + k
        → k + rounds * size ≡ m
        → start + m ≤ capacity
        → Triple
            (Ready k)
            (write_rounds bus addr_len addr_bytes wait rounds addr)
            (λ a s. (a ≡ start + m) × Ready m s)
            Never
    unfolding write_rounds
    write_rounds-Triple zero k m addr ea e fits = record {
      at = λ s g. let e' : k ≡ m = omega arith in (omega arith, subst (λ t. Ready t s) e' g);
    }
    write_rounds-Triple (suc rounds) k m addr ea e fits =
        let next : (start + k + size) % ulong_mod ≡ start + (k + size) = omega arith in
        rw ea (
          Triple-then (part-Triple k size (omega arith) (omega arith))
            (write_rounds-Triple rounds (k + size) m _ next (omega arith) fits))

    write_rest-Triple :
        (m n len : ℕ)
        → m + n ≡ len
        → start + len ≤ capacity
        → Triple
            (Ready m)
            (write_rest bus addr_len addr_bytes wait (start + m) n)
            (λ _. Ready len)
            Never
    unfolding write_rest
    write_rest-Triple m n len e fits =
        Triple-if (n == 0)
          (λ z. record {
            at = λ s g. let e' : m ≡ len = ground arith in subst (λ t. Ready t s) e' g;
          })
          (λ z. rw (← e) (part-Triple m n (ground arith) (omega arith)))

    rest-Triple :
        (addr m n len : ℕ)
        → m + n ≡ len
        → start + len ≤ capacity
        → Triple
            (λ s. (addr ≡ start + m) × Ready m s)
            (write_rest bus addr_len addr_bytes wait addr n)
            (λ _. Ready len)
            Never
    rest-Triple addr m n len e fits = record {
      at = λ s (ea, g). rw ea ((write_rest-Triple m n len e fits).at s g);
    }

    -- The whole write.
    pub device_write-Triple :
        (len : ℕ)
        → start + len ≤ capacity
        → Triple Begins
            (device_write bus addr_len addr_bytes wait start len)
            (λ ret s. (ret ≡ pos 0) × Ready len s)
            Never
    unfolding device_write lock_spi unlock_spi
    device_write-Triple len fits =
        let m = len / size * size in
        let whole : m + len % size ≡ len = div-add-mod' len size in
        Triple-then {Q = Begins} (Triple-modify (emit lock) (λ s h. h)) (
          Triple-then {Q = Ready 0} (Triple-modify clear_send_len (λ s h. h)) (
            Triple-bind
              (write_rounds-Triple (len / size) 0 m start (omega arith) (omega arith) (omega arith))
              λ addr. Triple-then (rest-Triple addr m (len % size) len whole fits) (
                Triple-then {Q = Ready len} {k = pure (pos 0)}
                  (Triple-modify (emit unlock) (λ s g. g)) (record { at = λ s g. (refl, g) }))))
