-- ===== src/Resource/Disk/Shares.antt =====
-- Which share of the disk eos_get_disk_info shows.
use Prim.Native.String.{String}
use text.Mathlib.Text.{◌==◌}
use text.Mathlib.TextEquality.{eq_iff}
use libeos.Prelude.{
  ℕ, ◌≡◌, refl, ap, ◌∙◌, ℤ, pos, minus_one, Bool, true, false, ◌&&◌, ◌||◌, Bool-cases, inl, inr,
  Option, none, some, List, [], ◌∷◌, ltb, if◌then◌else◌,
}
use libeos.Resource.Load.{Floats}
use libeos.Resource.Disk.{
  Statfs, Mounts, in_all, percent, take_stat, is_none, look_up, with_mounts, eos_get_disk_base,
  eos_get_disk_info, or_else, tenfold,
}

-- The first of two results.
abbrev pub or_shown : {A : Type 0} → Option A → Option A → Option A
or_shown none y = y
or_shown (some x) y = some x

-- `mtab` and `sizes` are what the system answers, the same at each question of one call.
module _ {Float Double W : Type 0} (fl : Floats Float Double) (bits : ℕ) (sys : Mounts W)
    (mtab : Option (List String)) (sizes : String → Option Statfs) where
  -- What a directory shows of itself: the share of its file system in use, if it is a mount whose
  -- sizes can be read and are not 0.
  abbrev pub listed : String → List String → Bool
  listed name [] = false
  listed name (m ∷ ms) = (m == name) || listed name ms

  abbrev pub share : Option Statfs → Option Float
  share none = none
  share (some s) =
      if ltb 0 s.f_blocks && ltb 0 (in_all fl bits sys s)
      then some (percent fl bits sys s)
      else none

  abbrev pub shown_in : Option (List String) → String → Option Float
  shown_in none name = none
  shown_in (some mounts) name = if listed name mounts then share (sizes name) else none

  abbrev pub shown : String → Option Float
  shown = shown_in mtab

  abbrev pub put_share : Option Float → ℤ × Float → ℤ × Float
  put_share none r = r
  put_share (some x) r = (pos 0, x)

  put_share-take_stat :
      (s : Option Statfs) (r : ℤ × Float)
      → put_share (share s) (take_stat fl bits sys s r) ≡ put_share (share s) r
  put_share-take_stat none r = refl
  put_share-take_stat (some s) r =
      elim (Bool-cases (ltb 0 s.f_blocks && ltb 0 (in_all fl bits sys s))) [
        | inl e ↦ rw e refl
        | inr e ↦ rw e refl
      ]

  take_stat-put_share :
      (s : Option Statfs) (r : ℤ × Float) → take_stat fl bits sys s r ≡ put_share (share s) r
  take_stat-put_share none r = refl
  take_stat-put_share (some s) r =
      elim (Bool-cases (ltb 0 s.f_blocks && ltb 0 (in_all fl bits sys s))) [
        | inl e ↦ rw e refl
        | inr e ↦ rw e refl
      ]

  hit :
      (again : Bool) (s : Option Statfs) (r : ℤ × Float) (w : W) (others : (ℤ × Float) × W)
      → others.0 ≡ (
          if again
          then put_share (share s) (take_stat fl bits sys s r)
          else take_stat fl bits sys s r)
      → (if is_none fl bits sys s then (r, w) else others).0 ≡ put_share (share s) r
  hit again none r w others e = refl
  hit true (some s) r w others e = e ∙ put_share-take_stat (some s) r
  hit false (some s) r w others e = e ∙ take_stat-put_share (some s) r

  abbrev found : Float → Option Float → ℤ × Option Float
  found val none = (minus_one, some val)
  found val (some x) = (pos 0, some x)

  abbrev as_found : ℤ × Float → ℤ × Option Float
  as_found (status, val) = (status, some val)

  found-put_share :
      (val : Float) (x : Option Float) → as_found (put_share x (minus_one, val)) ≡ found val x
  found-put_share val none = refl
  found-put_share val (some x) = refl

  found-look_up :
      (val : Float) (there : Bool) (x : Option Float)
      → as_found (if there then put_share x (minus_one, val) else (minus_one, val))
        ≡ found val (if there then x else none)
  found-look_up val true x = found-put_share val x
  found-look_up val false x = refl

  abbrev pub in_tenths : Option Float → ℤ × Option ℤ
  in_tenths none = (minus_one, some (fl.to_int (fl.float_mul (fl.float_of 0) (fl.float_of 10))))
  in_tenths (some x) = (pos 0, some (fl.to_int (fl.float_mul x (fl.float_of 10))))

  tenfold-found : (x : Option Float) → tenfold fl bits sys (found (fl.float_of 0) x) ≡ in_tenths x
  tenfold-found none = refl
  tenfold-found (some x) = refl

  module _ (same_mtab : (w : W) → (sys.read_mtab w).0 ≡ mtab)
      (same_sizes : (name : String) (w : W) → (sys.statfs name w).0 ≡ sizes name) where
    look_up_lem :
        (name : String) (ms : List String) (r : ℤ × Float) (w : W)
        → (look_up fl bits sys name ms r w).0
          ≡ (if listed name ms then put_share (share (sizes name)) r else r)
    unfolding look_up
    look_up_lem name [] r w = refl
    look_up_lem name (m ∷ ms) r w = elim (Bool-cases (m == name)) [
      | inl e ↦
          let same = (eq_iff m name).0 e in
          let rest = look_up_lem name ms (take_stat fl bits sys (sizes name) r) _ in
          rw (e, same, same_sizes name w) (hit (listed name ms) (sizes name) r _ _ rest)
      | inr e ↦ rw e (look_up_lem name ms r w)
    ]

    with_mounts_lem :
        (name : String) (val : Float) (mounts : Option (List String)) (w : W)
        → (with_mounts fl bits sys name val mounts w).0 ≡ found val (shown_in mounts name)
    unfolding with_mounts
    with_mounts_lem name val none w = refl
    with_mounts_lem name val (some mounts) w =
        ap as_found (look_up_lem name mounts (minus_one, val) w)
        ∙ found-look_up val (listed name mounts) (share (sizes name))

    base_with :
        (name : String) (val : Float) (w : W)
        → (eos_get_disk_base fl bits sys (some name) (some val) w).0 ≡ found val (shown name)
    unfolding eos_get_disk_base
    base_with name val w =
        with_mounts_lem name val _ _ ∙ ap (λ m. found val (shown_in m name)) (same_mtab w)

    or_else-found :
        (name : String) (val : Float) (x : Option Float) (w : W)
        → (or_else fl bits sys name (found val x, w)).0 ≡ found val (or_shown x (shown name))
    or_else-found name val none w = base_with name val w
    or_else-found name val (some x) w = refl

    then_found :
        (name : String) (val : Float) (x : Option Float) (r : (ℤ × Option Float) × W)
        → r.0 ≡ found val x
        → (or_else fl bits sys name r).0 ≡ found val (or_shown x (shown name))
    then_found name val x (r, w) e =
        ap (λ r. (or_else fl bits sys name (r, w)).0) e ∙ or_else-found name val x w

    -- While the mounts and their sizes do not change, the first of the three directories that shows
    -- its share decides: 0, and ten times that share. If none does, -1, and ten times 0.
    pub eos_get_disk_info_lem :
        (last : String) (w : W)
        → (eos_get_disk_info fl bits sys last w).0
          ≡ in_tenths
              (or_shown (or_shown (shown "/mnt/cfastdisk") (shown "/mnt/sddisk")) (shown last))
    unfolding eos_get_disk_info
    eos_get_disk_info_lem last w =
        let zero = fl.float_of 0 in
        let two = then_found "/mnt/sddisk" zero _ _ (base_with "/mnt/cfastdisk" zero w) in
        ap (tenfold fl bits sys) (then_found last zero _ _ two) ∙ tenfold-found _
