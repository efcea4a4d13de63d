-- ===== src/Pci/Reset/Endings.antt =====
-- How the reset of the PCI Express controller ends, and what it leaves open and mapped.
use Prim.Native.Nat.{bit_and}
use libeos.Prelude.{
  ap, ◌⊎◌, inl, inr, true, false, ==_iff, either_with, subst, sym, ℕ, zero, suc, ◌+◌, ◌≡◌, refl,
  ◌∙◌, ℤ, pos, minus_one, is_minus_one, Option, none, some, ◌==◌, arith,
}
use libeos.Prelude.Method.{Ending, ok, returned, crashed, Method, continue_with, call, finish}
use libeos.Pci.{number4, eos_rd_le32, ByteOrder}
use libeos.Pci.Reset.{
  Chip, Host, set_up_serdes, wait_serdes, write_table, reset_link, configure, check_link,
  reconfigure, give_back, with_mapping, eos_minimpc8308_reset_pcie,
}

module _ {W : Type 0} (chip : Chip W) (order : ByteOrder) where
  abbrev pub NotReady : (v : W) → Type 0
  NotReady v = (bit_and (number4 order (chip.load4 0xe3020 v).0) 0x4000_0000 == 0x4000_0000) ≡ false

  -- Register 0xe3020 does not show the lanes ready at `v`, nor at each of `left` reads from `now` on,
  -- with a pause behind each; and after one read and pause more it is `after`.
  abbrev pub NeverReady : (left : ℕ) (v now after : W) → Type 0
  NeverReady zero v now after = NotReady v × (after ≡ chip.pause 1 (chip.load4 0xe3020 now).1)
  NeverReady (suc left) v now after =
      NotReady v × NeverReady left now (chip.pause 1 (chip.load4 0xe3020 now).1) after

  -- The lanes were not ready at a first read, and at a hundred more.
  abbrev pub LanesDown : (after : W) → Type 0
  LanesDown after = (v : W) × NeverReady 100 v (chip.load4 0xe3020 v).1 after

  -- Register 0x9404 held another number than 0x16.
  abbrev pub LinkDown : (after : W) → Type 0
  LinkDown after =
      (v : W) × ((eos_rd_le32 order (chip.load4 0x9404 v).0 == 0x16) ≡ false)
      × (after ≡ (chip.load4 0x9404 v).1)

  -- Register 0x9404 held 0x16.
  abbrev pub LinkUp : (after : W) → Type 0
  LinkUp after =
      (v : W) × (eos_rd_le32 order (chip.load4 0x9404 v).0 ≡ 0x16)
      × (after ≡ (chip.load4 0x9404 v).1)

  -- What a call comes to, with its cause, and what is open and mapped then.
  pub data Ended (h : Host W) : Option (ℤ × Host W) → Type 0 where
    done :
        (base : ℕ) (v : W) (g : Host W)
        → (let (fd, w) = chip.sys_open h.world in
            (is_minus_one fd ≡ false)
            × ((chip.sys_mmap fd w).0 ≡ some base)
            × LinkUp v
            × (g.world ≡ chip.sys_close fd (chip.sys_munmap base (chip.pause 1_000_000 v))))
        → g.files ≡ h.files
        → g.mappings ≡ h.mappings
        → Ended h (some (pos 0, g))
    not_opened :
        (g : Host W)
        → is_minus_one (chip.sys_open h.world).0 ≡ true
        → g.files ≡ h.files
        → g.mappings ≡ h.mappings
        → Ended h (some (minus_one, g))
    not_mapped :
        (g : Host W)
        → (let (fd, w) = chip.sys_open h.world in
            (is_minus_one fd ≡ false) × ((chip.sys_mmap fd w).0 ≡ none))
        → g.files ≡ h.files + 1
        → g.mappings ≡ h.mappings
        → Ended h (some (minus_one, g))
    gave_up :
        (base : ℕ) (g : Host W)
        → (let (fd, w) = chip.sys_open h.world in
            (is_minus_one fd ≡ false) × ((chip.sys_mmap fd w).0 ≡ some base))
        → LanesDown g.world ⊎ LinkDown g.world
        → g.files ≡ h.files + 1
        → g.mappings ≡ h.mappings + 1
        → Ended h (some (minus_one, g))

  -- A step that goes on, to a world of which `Q` holds, or returns -1 since the lanes or the link
  -- are down. It opens, closes, maps and unmaps nothing.
  abbrev Holds : {A : Type 0} → (Q : W → Type 0) → Host W → Ending A × Host W → Type 0
  Holds Q h (ok a, g) = (g.files ≡ h.files) × (g.mappings ≡ h.mappings) × Q g.world
  Holds Q h (returned n, g) =
      (n ≡ minus_one)
      × (g.files ≡ h.files)
      × (g.mappings ≡ h.mappings)
      × (LanesDown g.world ⊎ LinkDown g.world)
  Holds Q h (crashed, g) = ⊥

  abbrev Any : W → Type 0
  Any w = Unit {0}

  abbrev Holding : {A : Type 0} → Method (Host W) A → Type 0
  Holding m = (h : Host W) → Holds Any h (m h)

  from_here :
      {A : Type 0} (Q : W → Type 0) (h g : Host W) (r : Ending A × Host W)
      → g.files ≡ h.files
      → g.mappings ≡ h.mappings
      → Holds Q g r
      → Holds Q h r
  from_here Q h g (ok a, k) p q (p', q', x) = (p' ∙ p, q' ∙ q, x)
  from_here Q h g (returned n, k) p q (e, p', q', x) = (e, p' ∙ p, q' ∙ q, x)
  from_here Q h g (crashed, k) p q never = never

  continue-Holds :
      {A B : Type 0} (Q R : W → Type 0) (f : A → Method (Host W) B) (h : Host W)
      (r : Ending A × Host W)
      → Holds Q h r
      → ((a : A) (g : Host W) → Q g.world → Holds R g (f a g))
      → Holds R h (continue_with f r)
  continue-Holds Q R f h (ok a, g) (p, q, x) keeps = from_here R h g (f a g) p q (keeps a g x)
  continue-Holds Q R f h (returned n, g) same keeps = same
  continue-Holds Q R f h (crashed, g) never keeps = never

  set_up_serdes-Holding : Holding (set_up_serdes chip order)
  unfolding set_up_serdes
  set_up_serdes-Holding h = (refl, refl, tt)

  -- What the wait comes to, where the register was last read at `v`.
  abbrev WaitEnds : (left : ℕ) (v : W) → Host W → Ending (Unit {0}) × Host W → Type 0
  WaitEnds left v h (ok a, g) = (g.files ≡ h.files) × (g.mappings ≡ h.mappings)
  WaitEnds left v h (returned n, g) =
      (n ≡ minus_one)
      × (g.files ≡ h.files)
      × (g.mappings ≡ h.mappings)
      × NeverReady left v h.world g.world
  WaitEnds left v h (crashed, g) = ⊥

  one_more :
      (left : ℕ) (v : W) (h : Host W) (r : Ending (Unit {0}) × Host W)
      → NotReady v
      → (let now = chip.pause 1 (chip.load4 0xe3020 h.world).1 in
          WaitEnds left h.world (record h { world = now }) r)
      → WaitEnds (suc left) v h r
  one_more left v h (ok a, g) first rest = rest
  one_more left v h (returned n, g) first (e, p, q, x) = (e, p, q, (first, x))
  one_more left v h (crashed, g) first never = never

  wait_serdes-WaitEnds :
      (left : ℕ) (v : W) (h : Host W)
      → WaitEnds left v h (wait_serdes chip order left (number4 order (chip.load4 0xe3020 v).0) h)
  unfolding wait_serdes
  wait_serdes-WaitEnds zero v h =
      either_with {A = Method (Host W) (Unit {0})} (λ m. WaitEnds zero v h (m h))
        (bit_and (number4 order (chip.load4 0xe3020 v).0) 0x4000_0000 == 0x4000_0000)
        (λ e. (refl, refl)) (λ e. (refl, refl, refl, (e, refl)))
  wait_serdes-WaitEnds (suc left) v h =
      let now = chip.pause 1 (chip.load4 0xe3020 h.world).1 in
      either_with {A = Method (Host W) (Unit {0})} (λ m. WaitEnds (suc left) v h (m h))
        (bit_and (number4 order (chip.load4 0xe3020 v).0) 0x4000_0000 == 0x4000_0000)
        (λ e. (refl, refl))
        (λ e. one_more left v h _ e (wait_serdes-WaitEnds left h.world (record h { world = now })))

  WaitEnds-Holds :
      (v : W) (h : Host W) (r : Ending (Unit {0}) × Host W)
      → h.world ≡ (chip.load4 0xe3020 v).1
      → WaitEnds 100 v h r
      → Holds Any h r
  WaitEnds-Holds v h (ok a, g) read (p, q) = (p, q, tt)
  WaitEnds-Holds v h (returned n, g) read (e, p, q, x) =
      (e, p, q, inl (v, subst (λ now. NeverReady 100 v now g.world) read x))
  WaitEnds-Holds v h (crashed, g) read never = never

  reset_link-Holding : Holding (reset_link chip order)
  unfolding reset_link
  reset_link-Holding h = (refl, refl, tt)

  configure-Holding : Holding (configure chip order)
  unfolding configure write_table
  configure-Holding h = (refl, refl, tt)

  check_link-Holds : (h : Host W) → Holds LinkUp h (check_link chip order h)
  unfolding check_link
  check_link-Holds h =
      let (bytes, w) = chip.load4 0x9404 h.world in
      either_with {A = Method (Host W) (Unit {0})}
        (λ m. Holds LinkUp h (m (record h { world = w }))) (eos_rd_le32 order bytes == 0x16)
        (λ e. (refl, refl, (h.world, (==_iff _ _).0 e, refl)))
        (λ e. (refl, refl, refl, inr (h.world, e, refl)))

  abbrev Waited : W → Type 0
  Waited x = (v : W) × LinkUp v × (x ≡ chip.pause 1_000_000 v)

  reconfigure-Holds : (h : Host W) → Holds Waited h (reconfigure chip order h)
  unfolding reconfigure
  reconfigure-Holds h = continue-Holds Any Waited _ h _ (set_up_serdes-Holding h) λ _ h1 _.
      let g1 = record h1 { world = (chip.load4 0xe3020 h1.world).1 } in
      from_here Waited h1 g1 _ refl refl (
        continue-Holds Any Waited _ g1 _
          (WaitEnds-Holds h1.world g1 _ refl (wait_serdes-WaitEnds 100 h1.world g1))
          λ _ h2 _. continue-Holds Any Waited _ h2 _ (reset_link-Holding h2) λ _ h3 _.
            continue-Holds Any Waited _ h3 _ (configure-Holding h3) λ _ h4 _.
              continue-Holds LinkUp Waited _ h4 _ (check_link-Holds h4)
                λ _ h5 up. (refl, refl, (h5.world, up, refl)))

  module _ (h : Host W) where
    abbrev fd : ℤ
    fd = (chip.sys_open h.world).0

    abbrev opened : W
    opened = (chip.sys_open h.world).1

    finish-Ended :
        (cpu_base : ℕ) (g : Host W) (r : Ending Unit × Host W)
        → is_minus_one fd ≡ false
        → (chip.sys_mmap fd opened).0 ≡ some cpu_base
        → g.files ≡ h.files + 1
        → g.mappings ≡ h.mappings + 1
        → Holds Waited g r
        → Ended h (finish (continue_with (λ _. give_back chip order fd cpu_base) r))
    finish-Ended cpu_base g (ok a, k) o m p q (p', q', (v, up, e)) =
        done cpu_base v _ (o, m, up, ap (λ x. chip.sys_close fd (chip.sys_munmap cpu_base x)) e)
          (omega arith) (omega arith)
    finish-Ended cpu_base g (returned n, k) o m p q (e, p', q', down) =
        subst (λ n. Ended h (some (n, k))) (sym e)
          (gave_up cpu_base k (o, m) down (p' ∙ p) (q' ∙ q))
    finish-Ended cpu_base g (crashed, k) o m p q never = elim never [ ]

    with_mapping-Ended :
        (window : Option ℕ) (g : Host W)
        → is_minus_one fd ≡ false
        → (chip.sys_mmap fd opened).0 ≡ window
        → g.files ≡ h.files + 1
        → g.mappings ≡ h.mappings
        → Ended h (call (with_mapping chip order fd window) g)
    unfolding with_mapping
    with_mapping-Ended none g o m p q = not_mapped g (o, m) p q
    with_mapping-Ended (some cpu_base) g o m p q =
        let g' = record g { mappings = g.mappings + 1 } in
        finish-Ended cpu_base g' (reconfigure chip order g') o m p (omega arith)
          (reconfigure-Holds g')

    -- Whatever the hardware does, the reset ends. It returns 0 only after it read 0x16 in register
    -- 0x9404, and then as much is open and mapped as before. It returns -1 with as much open and
    -- mapped as before where /dev/mem could not be opened, with one file more where it could not be
    -- mapped, and with one file and one mapping more where the serial lanes were read as not ready
    -- a hundred and one times, or the link as another number.
    pub eos_minimpc8308_reset_pcie-Ended : Ended h (call (eos_minimpc8308_reset_pcie chip order) h)
    unfolding eos_minimpc8308_reset_pcie
    eos_minimpc8308_reset_pcie-Ended =
        either_with {A = Ending ℤ × Host W} (λ r. Ended h (finish r)) (is_minus_one fd)
          (λ e. not_opened _ e refl refl) (λ e. with_mapping-Ended _ _ e refl refl refl)
