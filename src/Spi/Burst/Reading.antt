-- ===== src/Spi/Burst/Reading.antt =====
-- What a read in rounds brings, where the chip answers every request of the same bytes alike.
use native.Mathlib.Nat.{
  le_refl, zero-mul, mul-mod_left, mod-lt, le_of_lt, div-add-mod', mod-add-mod, mod-eq_of_lt,
  add-mod_right, zero-mod,
}
use libeos.Prelude.{
  ℕ, zero, suc, ◌+◌, ◌-◌, ◌*◌, ◌/◌, ◌%◌, ◌≤◌, ◌<◌, ◌≡◌, ◌∙◌, ap, sym, subst, ℤ, pos, negsuc, to_ℕ,
  to_int, Option, none, some, ◌∷◌, length, Buf, slice, slice-store, memcpy, arith, ◌==◌, ltb,
  Bool-cases, inl, inr,
}
use libeos.Spi.Machine.{
  Bus, Sys, pure, emit, lock, unlock, lock_spi, unlock_spi, select, deselect, callback, call_enable,
  call_disable, put_recv,
}
use libeos.Spi.Chip.{recv_buffer, read_into, spi_transfer}
use libeos.Spi.Chip.Transfer.{spi_transfer-read}
use libeos.Spi.Memory.{selected, check, cs_transfer, take_recv, clear_recv_len, received_len}
use libeos.Spi.Burst.{Burst, read_part, read_rounds, read_rest, device_read}
use libeos.Spi.Triple.{
  Triple, Ends, Never, Triple-bind, Triple-then, Triple-modify, Triple-gets, Triple-if, Triple-pure,
}

-- In a good world, which a read leaves good, the request is answered by the first bytes of
-- `answer`.
pub record Answers {W : Type 0} (bus : Bus W) (burst : Burst W) (answer : Buf) : Type 1 where
  pub Good : W → Type 0
  pub reads :
      (fd : ℤ) (b : Buf) (n : ℕ) (w : W)
      → slice b 0 (suc (length burst.read_head)) ≡ burst.head_len ∷ burst.read_head
      → n ≤ burst.read_size
      → Good w
      → let r = bus.sys_read fd b n w in
        (r.ret ≡ pos n) × ((j : ℕ) → j < n → r.buf j ≡ answer j) × Good r.world

module _ {W : Type 0} {bus : Bus W} {burst : Burst W} {answer : Buf}
    (chip : Answers bus burst answer) where
  open chip use {Good}

  abbrev pub Quiet : Option (W → W) → Type 0
  Quiet none = Unit
  Quiet (some f) = (w : W) → Good w → Good (f w)

  abbrev size : ℕ
  size = burst.read_size

  pub record Holds (k : ℕ) (enable disable : Option (W → W)) (w : W) (len : ℕ) (b : Buf)
      : Type 0 where
    pub quiet_enable : Quiet enable
    pub quiet_disable : Quiet disable
    pub good : Good w
    pub count : len ≡ k
    pub copied : (j : ℕ) → j < k → b j ≡ answer (j % burst.read_size)

  abbrev pub Got : ℕ → Sys W → Type 0
  Got k s = Holds k s.enable s.disable s.world s.recv_len s.data_buf

  abbrev Asked : ℕ → Sys W → Type 0
  Asked k s =
      Got k s
      × (slice s.recv_buf 0 (suc (length burst.read_head)) ≡ burst.head_len ∷ burst.read_head)

  abbrev Received : (k n : ℕ) → ℤ → Sys W → Type 0
  Received k n ret s = Got k s × (ret ≡ pos n) × ((j : ℕ) → j < n → s.recv_buf j ≡ answer j)

  good_after :
      {k len : ℕ} {e d : Option (W → W)} {w v : W} {b : Buf}
      → Holds k e d w len b
      → Good v
      → Holds k e d v len b
  good_after h g = record {
    quiet_enable = h.quiet_enable;
    quiet_disable = h.quiet_disable;
    good = g;
    count = h.count;
    copied = h.copied;
  }

  enable-Asked : (k : ℕ) → Triple (Asked k) call_enable (λ _. Asked k) Never
  unfolding call_enable callback
  enable-Asked k = record { at = λ s a. keeps s.enable s a (a.0.quiet_enable) }
    where
      keeps :
          (cb : Option (W → W)) (s : Sys W) → Asked k s → Quiet cb → Asked k (callback cb select s)
      keeps none s a q = a
      keeps (some f) s a q = (good_after a.0 (q _ a.0.good), a.1)

  disable-Received :
      (k n : ℕ) (ret : ℤ) → Triple (Received k n ret) call_disable (λ _. Received k n ret) Never
  unfolding call_disable callback
  disable-Received k n ret = record { at = λ s r. keeps s.disable s r (r.0.quiet_disable) }
    where
      keeps :
          (cb : Option (W → W)) (s : Sys W)
          → Received k n ret s
          → Quiet cb
          → Received k n ret (callback cb deselect s)
      keeps none s r q = r
      keeps (some f) s r q = (good_after r.0 (q _ r.0.good), r.1, r.2)

  ask-Triple :
      (k : ℕ) → Triple (Got k) (put_recv (burst.head_len ∷ burst.read_head)) (λ _. Asked k) Never
  unfolding put_recv
  ask-Triple k =
      Triple-modify _ λ s g. (g, slice-store s.recv_buf 0 (burst.head_len ∷ burst.read_head))

  transfer-Triple :
      (k n : ℕ)
      → 0 < n
      → n ≤ size
      → Triple (Asked k) (spi_transfer bus recv_buffer n 0) (Received k n) Never
  unfolding read_into
  transfer-Triple k n p fits = record { at = λ s a. rw (spi_transfer-read bus s n p) (read-at s a) }
    where
      read-at : (s : Sys W) → Asked k s → Ends (Received k n) Never (read_into bus recv_buffer n s)
      read-at s (g, frame) =
          let (ret, bytes, good) = chip.reads s.fd s.recv_buf n s.world frame fits g.good in
          (good_after g good, ret, bytes)

  check-Triple : (k n : ℕ) (ret : ℤ) → Triple (Received k n ret) (check ret) (Received k n) Never
  unfolding check
  check-Triple k n (pos m) = record { at = λ s h. h }
  check-Triple k n (negsuc m) = record { at = λ s h. absurd (cc (h.1)) }

  add_zero : (i : ℕ) → 0 + i ≡ i
  add_zero i = omega arith

  period : (k i : ℕ) → k % size ≡ 0 → i < size → (k + i) % size ≡ i
  period k i e p =
      let drop : (0 + i) % size ≡ i % size = ap (λ t. t % size) (add_zero i) in
      sym (mod-add-mod k size i) ∙ ap (λ r. (r + i) % size) e ∙ drop ∙ mod-eq_of_lt p

  place : (k j : ℕ) → k ≤ j → j ≡ k + (j - k)
  place k j p = omega arith

  copied-next :
      (k n j : ℕ) (b r : Buf)
      → k % size ≡ 0
      → n ≤ size
      → ((i : ℕ) → i < k → b i ≡ answer (i % size))
      → ((i : ℕ) → i < n → r i ≡ answer i)
      → j < k + n
      → memcpy b k r 0 n j ≡ answer (j % size)
  copied-next k n j b r e fits old new p = elim (Bool-cases (ltb j k)) [
    | inl below ↦ let same : memcpy b k r 0 n j ≡ b j = ground arith in same ∙ old j (ground arith)
    | inr above ↦
        let i = j - k in
        let least : k ≤ j = ground arith in
        let next : memcpy b k r 0 n j ≡ r i = ground arith in
        let at : j % size ≡ i = ap (λ t. t % size) (place k j least) ∙ period k i e (omega arith) in
        next ∙ new i (omega arith) ∙ ap answer (sym at)
  ]

  -- A round begins where the rounds before it ended.
  take_recv-Got :
      (k n : ℕ) (ret : ℤ) (s : Sys W)
      → k % size ≡ 0
      → n ≤ size
      → Received k n ret s
      → Got (k + n) (take_recv (to_ℕ ret) s)
  take_recv-Got k n ret s e fits (g, all, bytes) = record {
    quiet_enable = g.quiet_enable;
    quiet_disable = g.quiet_disable;
    good = g.good;
    count = λ i. g.count i + to_ℕ (all i);
    copied = λ j p.
        subst (λ (t : ℕ × ℕ). memcpy s.data_buf t.0 s.recv_buf 0 t.1 j ≡ answer (j % size))
          (λ i. (sym g.count i, to_ℕ (sym all i)))
          (copied-next k n j s.data_buf s.recv_buf e fits g.copied bytes p);
  }

  part-Triple :
      (k n : ℕ)
      → 0 < n
      → n ≤ size
      → k % size ≡ 0
      → Triple (Got k) (read_part bus burst n) (λ _. Got (k + n)) Never
  unfolding read_part cs_transfer selected
  part-Triple k n p fits e = Triple-then (ask-Triple k) (
      Triple-bind
        (Triple-bind
          (Triple-then (enable-Asked k) (
            Triple-bind (transfer-Triple k n p fits)
              λ ret. Triple-then (disable-Received k n ret) (Triple-pure ret)))
          (check-Triple k n))
        λ ret. Triple-modify (take_recv (to_ℕ ret)) (λ s r. take_recv-Got k n ret s e fits r))

  one_more : (k rounds z : ℕ) → k + suc rounds * z ≡ k + z + rounds * z
  one_more k rounds z = grind arith

  rounds_add : (k rounds z m : ℕ) → k + suc rounds * z ≡ m → k + z + rounds * z ≡ m
  rounds_add k rounds z m f = sym (one_more k rounds z) ∙ f

  rounds-Triple :
      (rounds k m : ℕ)
      → 0 < size
      → k % size ≡ 0
      → k + rounds * size ≡ m
      → Triple (Got k) (read_rounds bus burst rounds) (λ _. Got m) Never
  unfolding read_rounds
  rounds-Triple zero k m p e f = record {
    at = λ s g. let e' : k ≡ m = omega (arith, f, zero-mul size) in subst (λ t. Got t s) e' g;
  }
  rounds-Triple (suc rounds) k m p e f = Triple-then (part-Triple k size p (le_refl _) e) (
      rounds-Triple rounds (k + size) m p (add-mod_right k size ∙ e) (rounds_add k rounds size m f))

  whole_rounds : (rounds : ℕ) → rounds * size % size ≡ 0
  whole_rounds rounds = mul-mod_left rounds size

  rest-Triple :
      (m n len : ℕ)
      → m % size ≡ 0
      → n ≤ size
      → m + n ≡ len
      → Triple (Got m) (read_rest bus burst n) (λ _. Got len) Never
  unfolding read_rest
  rest-Triple m n len e fits f =
      Triple-if (n == 0)
        (λ z. record { at = λ s g. let e' : m ≡ len = ground arith in subst (λ t. Got t s) e' g })
        (λ z. rw (← f) (part-Triple m n (ground arith) fits e))

  -- Before the read.
  abbrev pub Begins : Sys W → Type 0
  Begins s = Holds 0 s.enable s.disable s.world 0 s.data_buf

  pub device_read-Triple :
      (len : ℕ)
      → 0 < size
      → Triple (Got 0) burst.begin (λ _. Got 0) Never
      → Triple Begins (device_read bus burst len) (λ ret s. (ret ≡ to_int len) × Got len s) Never
  unfolding device_read lock_spi unlock_spi
  device_read-Triple len p begins =
      let m = len / size * size in
      Triple-then {Q = Begins} (Triple-modify (emit lock) (λ s h. h)) (
        Triple-then {Q = Got 0} (Triple-modify clear_recv_len (λ s h. h)) (
          Triple-then {Q = Got 0} begins (
            Triple-then (rounds-Triple (len / size) 0 m p (zero-mod size) (add_zero m)) (
              Triple-then
                (rest-Triple m (len % size) len (whole_rounds (len / size))
                  (le_of_lt (mod-lt len p)) (div-add-mod' len size))
                (Triple-bind {Q = λ n s. (n ≡ len) × Got len s}
                  (Triple-gets received_len (λ s g. (g.count, g)))
                  λ n.
                    Triple-then {Q = λ s. (n ≡ len) × Got len s} {k = pure (to_int n)}
                      (Triple-modify (emit unlock) (λ s g. g))
                      (record { at = λ s (e, g). (ap to_int e, g) }))))))
