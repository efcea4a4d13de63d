-- ===== src/Mmap/Copy.antt =====
-- The copying loops do what the calls of memcpy do that they replace.
use libeos.Prelude.{ℕ, zero, suc, ◌+◌, ◌*◌, ◌≡◌, sym, ◌∙◌, Buf, memcpy, memcpy-zero, fun_ext, arith}
use libeos.Mmap.{copy_cells}

join_at :
    (width : ℕ) (src : Buf) (from : ℕ) (dst : Buf) (to n : ℕ) (j : ℕ)
    → memcpy (memcpy dst to src from width) (to + width) src (from + width) n j
      ≡ memcpy dst to src from (width + n) j
join_at width src from dst to n j = ground arith

pub copy_cells-memcpy :
    (width : ℕ) (src : Buf) (from : ℕ) (dst : Buf) (to len : ℕ)
    → copy_cells width src from dst to len ≡ memcpy dst to src from (len * width)
unfolding copy_cells
copy_cells-memcpy width src from dst to zero =
    let e : 0 * width ≡ 0 = omega arith in rw e (sym (memcpy-zero dst src to from))
copy_cells-memcpy width src from dst to (suc len) =
    let e : suc len * width ≡ width + len * width = omega arith in
    rw e (
      copy_cells-memcpy width src (from + width) (memcpy dst to src from width) (to + width) len
      ∙ fun_ext (join_at width src from dst to (len * width)))
