-- ===== src/Dma/Lengths.antt =====
-- The checks of eos_init_dma_arg and eos_init_dma_arg_channel on the number of blocks and on their
-- total length.
use libeos.Prelude.{
  ℕ, zero, suc, ◌+◌, ◌%◌, ◌^◌, ◌≤◌, ◌<◌, ◌≡◌, ◌⊎◌, refl, ℤ, pos, false, minus_one, is_minus_one,
  none, some, ◌∷◌, List, [], Option, true, inl, inr, Bool-cases, ◌∙◌, ap, ◌-◌, ◌==◌, ltb,
  if◌then◌else◌, arith,
}
use libeos.Dma.{
  Blocks, set_dma_arg, Driver, Host, sum_lengths, copy_blocks, dma_max_len, dma_max_block,
  eos_init_dma_arg, eos_init_dma_arg_channel,
}

-- The lengths of the blocks from `i` on, without a bound.
abbrev pub total : Blocks → (i num : ℕ) → ℕ
total p i zero = 0
total p i (suc num) = (p i).1 + total p (i + 1) num

sums :
    (p : Blocks) (i num acc : ℕ)
    → acc < 2 ^ 32
    → sum_lengths p i num acc ≡ (acc + total p i num) % 2 ^ 32
unfolding sum_lengths
sums p i zero acc small = omega arith
sums p i (suc num) acc small =
    omega (arith, sums p (i + 1) num ((acc + (p i).1) % 2 ^ 32) (omega arith))

-- The checked sum is the total of the lengths, cut to 32 bits.
pub sum_lengths-total : (p : Blocks) (num : ℕ) → sum_lengths p 0 num 0 ≡ total p 0 num % 2 ^ 32
sum_lengths-total p num = omega (arith, sums p 0 num 0 (omega arith))

-- Entry `k` of a list, or nothing behind its end.
abbrev pub entry : List (ℕ × ℕ) → ℕ → Option (ℕ × ℕ)
entry [] k = none
entry (x ∷ xs) k = if k == 0 then some x else entry xs (k - 1)

-- The copy holds the caller's entries from `i` on, as many as asked for, in their order.
pub copy_blocks-entry :
    (p : Blocks) (i num k : ℕ)
    → entry (copy_blocks p i num) k ≡ (if ltb k num then some (p (i + k)) else none)
unfolding copy_blocks
copy_blocks-entry p i zero k = ground arith
copy_blocks-entry p i (suc num) k = elim (Bool-cases (k == 0)) [
  | inl e ↦
      let z : k ≡ 0 = ground arith in
      let first : ltb k (suc num) ≡ true = ground arith in
      let here : i ≡ i + k = omega arith in rw (e, first) (ap (λ n. some (p n)) here)
  | inr e ↦
      let later : ltb k (suc num) ≡ ltb (k - 1) num = ground arith in
      let there : i + 1 + (k - 1) ≡ i + k = ground arith in
      rw (e, later)
        (copy_blocks-entry p (i + 1) num (k - 1)
          ∙ ap (λ n. if ltb (k - 1) num then some (p n) else none) there)
]

copied :
    (p : Blocks) (num k : ℕ)
    → entry (copy_blocks p 0 num) k ≡ (if ltb k num then some (p k) else none)
copied p num k =
    let here : 0 + k ≡ k = omega arith in
    copy_blocks-entry p 0 num k ∙ ap (λ n. if ltb k num then some (p n) else none) here

-- One request was sent, for `num` blocks: they are the caller's, in his order and no more. The
-- result is 0 unless the driver says -1, and what is open and mapped is as before.
abbrev pub Sent : {W : Type 0} → Driver W → ℤ → Blocks → ℕ → Option ℤ → Host W → ℤ × Host W → Type 0
Sent dev fd p num channel h (ret, g) =
    (blocks : List (ℕ × ℕ)) × ((k : ℕ) → entry blocks k ≡ (if ltb k num then some (p k) else none))
    × (let r = set_dma_arg blocks num channel in
        (g.requests ≡ r ∷ h.requests)
        × (g.files ≡ h.files)
        × (g.mappings ≡ h.mappings)
        × (g.world ≡ (dev.ioctl fd r h.world).1)
        × (ret ≡ (if is_minus_one (dev.ioctl fd r h.world).0 then minus_one else pos 0)))

module _ {W : Type 0} (dev : Driver W) (fd : ℤ) (p : Blocks) (num : ℕ) (h : Host W) where
  -- More than ten blocks, or lengths whose total is above 0xa000 after it is cut to 32 bits: both
  -- functions return -1 and send nothing.
  pub eos_init_dma_arg_refuses :
      (channel : ℤ)
      → ((dma_max_block < num) ⊎ (dma_max_len < total p 0 num % 2 ^ 32))
      → (eos_init_dma_arg dev fd p num h ≡ (minus_one, h))
        × (eos_init_dma_arg_channel dev fd p num channel h ≡ (minus_one, h))
  unfolding eos_init_dma_arg eos_init_dma_arg_channel
  eos_init_dma_arg_refuses channel bad = let e = sum_lengths-total p num in ground arith

  -- At most ten blocks, whose total length is at most 0xa000 after it is cut to 32 bits: both
  -- functions send one request, with the caller's blocks, all of them and in their order, and for a
  -- channel its number. They return 0 unless the driver says -1.
  pub eos_init_dma_arg_sends :
      (channel : ℤ)
      → num ≤ dma_max_block
      → total p 0 num % 2 ^ 32 ≤ dma_max_len
      → Sent dev fd p num none h (eos_init_dma_arg dev fd p num h)
        × Sent dev fd p num (some channel) h (eos_init_dma_arg_channel dev fd p num channel h)
  unfolding eos_init_dma_arg eos_init_dma_arg_channel
  eos_init_dma_arg_sends channel few short =
      let e = sum_lengths-total p num in
      let a : ltb dma_max_block num ≡ false = ground arith in
      let b : ltb dma_max_len (sum_lengths p 0 num 0) ≡ false = ground arith in
      let blocks = copy_blocks p 0 num in
      let same = copied p num in
      rw (a, b)
        (
          (blocks, same, (refl, refl, refl, refl, refl)),
          (blocks, same, (refl, refl, refl, refl, refl)),
        )

-- Two blocks whose lengths add up to 2^32 pass the check on the length, since the sum wraps to 0.
pub eos_init_dma_arg_wraps :
    {W : Type 0} (dev : Driver W) (fd : ℤ) (p : Blocks) (h : Host W)
    → (p 0).1 + (p 1).1 ≡ 2 ^ 32
    → Sent dev fd p 2 none h (eos_init_dma_arg dev fd p 2 h)
eos_init_dma_arg_wraps dev fd p h wide =
    (eos_init_dma_arg_sends dev fd p 2 h (pos 0) (omega arith) (omega arith)).0
