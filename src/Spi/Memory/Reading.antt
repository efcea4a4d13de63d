-- ===== src/Spi/Memory/Reading.antt =====
-- Reading from a memory chip: the caller's buffer receives the chip's content.
use native.Mathlib.Nat.{div-add-mod'}
use libeos.Prelude.{
  ℕ, zero, suc, ◌+◌, ◌-◌, ◌*◌, ◌/◌, ◌%◌, ◌≤◌, ◌<◌, ◌≡◌, ap, subst, to_int, List, Buf, arith, ◌==◌,
}
use libeos.Spi.Machine.{Bus, Sys, pure, emit, lock, unlock, lock_spi, unlock_spi}
use libeos.Spi.Memory.{
  read_rounds, read_rest, device_read, clear_recv_len, received_len, ulong_mod, max_read_buff_len,
}
use libeos.Spi.Memory.Behaviour.{MemoryChip, Encodes}
use libeos.Spi.Memory.ReadRound
use libeos.Spi.Memory.ReadRound.{Holds, read_part-Triple}
use libeos.Spi.Triple.{
  Triple, Never, Triple-bind, Triple-then, Triple-modify, Triple-gets, Triple-if,
}

module _ {W : Type 0} {bus : Bus W} {addr_len capacity slack : ℕ}
    (c : MemoryChip bus addr_len capacity slack) (addr_bytes : ℕ → List ℕ)
    (enc : Encodes addr_bytes addr_len capacity) (target : Buf) (content : Buf) (start : ℕ) where
  abbrev pub Got : ℕ → Sys W → Type 0
  Got = ReadRound.Got c addr_bytes enc target content start

  -- Before the read: what `Got 0` says, with the count that the read will start from.
  abbrev pub Begins : Sys W → Type 0
  Begins s = Holds c addr_bytes enc target content start 0 s.enable s.disable s.world 0 s.data_buf

  abbrev size : ℕ
  size = max_read_buff_len - addr_len - 1

  module _ (small : capacity < ulong_mod) (room : addr_len < 31) where
    read_rounds-Triple :
        (rounds k m addr : ℕ)
        → addr ≡ start + k
        → k + rounds * size ≡ m
        → start + m ≤ capacity
        → Triple
            (Got k)
            (read_rounds bus addr_len addr_bytes rounds addr)
            (λ a s. (a ≡ start + m) × Got m s)
            Never
    unfolding read_rounds
    read_rounds-Triple zero k m addr ea e fits = record {
      at = λ s g. let e' : k ≡ m = omega arith in (omega arith, subst (λ t. Got t s) e' g);
    }
    read_rounds-Triple (suc rounds) k m addr ea e fits =
        let next : (start + k + size) % ulong_mod ≡ start + (k + size) = omega arith in
        rw ea (
          Triple-then
            (read_part-Triple c addr_bytes enc target content start k size (omega arith)
              (omega arith))
            (read_rounds-Triple rounds (k + size) m _ next (omega arith) fits))

    read_rest-Triple :
        (m n len : ℕ)
        → m + n ≡ len
        → start + len ≤ capacity
        → Triple (Got m) (read_rest bus addr_len addr_bytes (start + m) n) (λ _. Got len) Never
    unfolding read_rest
    read_rest-Triple m n len e fits =
        Triple-if (n == 0)
          (λ z. record { at = λ s g. let e' : m ≡ len = ground arith in subst (λ t. Got t s) e' g })
          (λ z. rw (← e) (
            read_part-Triple c addr_bytes enc target content start m n (ground arith)
              (omega arith)))

    rest-Triple :
        (addr m n len : ℕ)
        → m + n ≡ len
        → start + len ≤ capacity
        → Triple
            (λ s. (addr ≡ start + m) × Got m s)
            (read_rest bus addr_len addr_bytes addr n)
            (λ _. Got len)
            Never
    rest-Triple addr m n len e fits = record {
      at = λ s (ea, g). rw ea ((read_rest-Triple m n len e fits).at s g);
    }

    -- The whole read.
    pub device_read-Triple :
        (len : ℕ)
        → start + len ≤ capacity
        → Triple Begins
            (device_read bus addr_len addr_bytes start len)
            (λ ret s. (ret ≡ to_int len) × Got len s)
            Never
    unfolding device_read lock_spi unlock_spi
    device_read-Triple len fits =
        let m = len / size * size in
        let whole : m + len % size ≡ len = div-add-mod' len size in
        Triple-then {Q = Begins} (Triple-modify (emit lock) (λ s h. h)) (
          Triple-then {Q = Got 0} (Triple-modify clear_recv_len (λ s h. h)) (
            Triple-bind
              (read_rounds-Triple (len / size) 0 m start (omega arith) (omega arith) (omega arith))
              λ addr. Triple-then (rest-Triple addr m (len % size) len whole fits) (
                Triple-bind {Q = λ n s. (n ≡ len) × Got len s}
                  (Triple-gets received_len (λ s g. (g.count, g)))
                  λ n.
                    Triple-then {Q = λ s. (n ≡ len) × Got len s} {k = pure (to_int n)}
                      (Triple-modify (emit unlock) (λ s g. g))
                      (record { at = λ s (e, g). (ap to_int e, g) }))))
