-- ===== src/Prelude/Buffers.antt =====
-- C's byte buffers. A buffer is the memory behind a pointer, a function of the index: the code
-- passes pointers without a size, so that bounds are theorems about the indices in use.
use Prim.Native.Nat.{ℕ, zero, suc, ◌+◌, ◌-◌, ◌<◌}
use mathlib.Core.Path.{◌≡◌, refl, fun_ext, ◌∙◌, ap}
use mathlib.Core.Bool.{◌&&◌}
use mathlib.Core.List.{List, [], ◌∷◌, ◌++◌}
use native.Mathlib.Omega.{arith}
use libeos.Prelude.Tests.{ltb, leb, ◌==◌, if◌then◌else◌}
use libeos.Prelude.Lists.{length}

abbrev pub Buf : Type 0
Buf = ℕ → ℕ

-- The `n` bytes from index `i` on.
unfoldable pub slice : Buf → ℕ → ℕ → List ℕ
slice b i zero = []
slice b i (suc n) = b i ∷ slice b (i + 1) n

-- The bytes of a list, stored from index `i` on.
unfoldable pub store : Buf → ℕ → List ℕ → Buf
store b i [] = b
store b i (x ∷ xs) = store (λ j. if j == i then x else b j) (i + 1) xs

-- memcpy(dst + i, src + k, n)
abbrev pub memcpy : Buf → ℕ → Buf → ℕ → ℕ → Buf
memcpy dst i src k n j = if leb i j && ltb j (i + n) then src (k + (j - i)) else dst j

pub length-slice : (b : Buf) (i n : ℕ) → length (slice b i n) ≡ n
unfolding slice
length-slice b i zero = refl
length-slice b i (suc n) = ap suc (length-slice b (i + 1) n)

-- Storing a slice of a buffer is `memcpy`.
pub store-slice-at :
    (b src : Buf) (i k n j : ℕ) → store b i (slice src k n) j ≡ memcpy b i src k n j
unfolding store slice
store-slice-at b src i k zero j = ground arith
store-slice-at b src i k (suc n) j =
    ground (arith, store-slice-at (λ j'. if j' == i then src k else b j') src (i + 1) (k + 1) n j)

pub store-slice : (b src : Buf) (i k n : ℕ) → store b i (slice src k n) ≡ memcpy b i src k n
store-slice b src i k n = fun_ext (store-slice-at b src i k n)

-- A copy of the first bytes, and one of the next bytes behind it.
pub memcpy-memcpy :
    (b src : Buf) (i m n : ℕ)
    → memcpy (memcpy b i src 0 m) (i + m) src m n ≡ memcpy b i src 0 (m + n)
memcpy-memcpy b src i m n = fun_ext λ j. ground arith

pub memcpy-zero : (b src : Buf) (i k : ℕ) → memcpy b i src k 0 ≡ b
memcpy-zero b src i k = fun_ext λ j. ground arith

-- A copy behind a copy, where what is copied is the source's next part.
pub memcpy-extend :
    (b src part : Buf) (k m n : ℕ)
    → ((j : ℕ) → j < n → part j ≡ src (k + m + j))
    → memcpy (memcpy b 0 src k m) m part 0 n ≡ memcpy b 0 src k (m + n)
memcpy-extend b src part k m n same = fun_ext λ j. ground (arith, same (j - m))

-- Storing below an index leaves what stands at it.
pub store-below : (b : Buf) (i : ℕ) (xs : List ℕ) (j : ℕ) → j < i → store b i xs j ≡ b j
unfolding store
store-below b i [] j h = refl
store-below b i (x ∷ xs) j h =
    ground (arith, store-below (λ j'. if j' == i then x else b j') (i + 1) xs j (omega arith))

-- A list that was stored is read back.
pub slice-store : (b : Buf) (i : ℕ) (xs : List ℕ) → slice (store b i xs) i (length xs) ≡ xs
unfolding store slice
slice-store b i [] = refl
slice-store b i (x ∷ xs) = ground (
  arith,
  slice-store (λ j'. if j' == i then x else b j') (i + 1) xs,
  store-below (λ j'. if j' == i then x else b j') (i + 1) xs i (omega arith),
)

-- Two slices of the same bytes.
pub slice-ext :
    (b c : Buf) (i k n : ℕ) → ((j : ℕ) → j < n → b (i + j) ≡ c (k + j)) → slice b i n ≡ slice c k n
unfolding slice
slice-ext b c i k zero same = refl
slice-ext b c i k (suc n) same = ground (
  arith,
  same 0 (omega arith),
  slice-ext b c (i + 1) (k + 1) n (λ j h. ground (arith, same (j + 1) (omega arith))),
)

pub slice-append : (b : Buf) (i m n : ℕ) → slice b i (m + n) ≡ slice b i m ++ slice b (i + m) n
unfolding slice
slice-append b i zero n = ground arith
slice-append b i (suc m) n =
    let e : suc m + n ≡ suc (m + n) = omega arith in
    let e' : i + suc m ≡ i + 1 + m = omega arith in
    rw (e, e') (ap (λ (t : List ℕ). b i ∷ t) (slice-append b (i + 1) m n))

-- A list, and a copy behind it, in one slice.
pub slice-memcpy-store :
    (b src : Buf) (xs : List ℕ) (k n : ℕ)
    → slice (memcpy (store b 0 xs) (length xs) src k n) 0 (length xs + n) ≡ xs ++ slice src k n
slice-memcpy-store b src xs k n =
    let both = memcpy (store b 0 xs) (length xs) src k n in
    let front : slice both 0 (length xs) ≡ xs =
      slice-ext both (store b 0 xs) 0 0 (length xs) (λ j h. ground arith) ∙ slice-store b 0 xs in
    let back : slice both (0 + length xs) n ≡ slice src k n =
      slice-ext both src (0 + length xs) k n (λ j h. ground arith) in
    slice-append both 0 (length xs) n ∙ (λ i. front i ++ back i)

-- A part that was copied away, copied back.
pub memcpy-back :
    (b c src : Buf) (i n : ℕ) → memcpy b 0 (memcpy c i src 0 n) i n ≡ memcpy b 0 src 0 n
memcpy-back b c src i n = fun_ext λ j. ground arith
