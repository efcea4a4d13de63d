-- ===== src/Resource/Disk.antt =====
-- How full the disk is: eos_get_disk_base and eos_get_disk_info of
-- eos_lib/eos_lib/eos_get_sys_resoure.cpp. A name is a text.
pub mod Shares
use Prim.Native.String.{String}
use text.Mathlib.Text.{◌==◌}
use mathlib.Core.Path.{◌≡◌, refl}
use libeos.Prelude.{
  true, false, ◌&&◌, ◌||◌, ℕ, ◌+◌, ◌-◌, ◌*◌, ◌/◌, ◌%◌, ◌^◌, ℤ, pos, negsuc, minus_one, is_neg, Bool,
  not, Option, none, some, List, [], ◌∷◌, ltb, if◌then◌else◌,
}
use libeos.Resource.Load.{Floats}

-- f_blocks, f_bfree and f_bavail of struct statfs
pub record Statfs : Type 0 where
  pub f_blocks : ℕ
  pub f_bfree : ℕ
  pub f_bavail : ℕ

-- What the system says: the directories in /etc/mtab in their order, or `none` where it cannot be
-- opened, and the sizes of a directory's file system, or `none` for an error. It is asked again at
-- each call, and may then say something else.
pub record Mounts (W : Type 0) : Type 0 where
  pub read_mtab : W → Option (List String) × W
  pub statfs : String → W → Option Statfs × W

module _ {Float Double W : Type 0} (fl : Floats Float Double) (bits : ℕ) (sys : Mounts W) where
  -- In words of `bits` bits, those of `unsigned long`; the product is one of 64 bits.
  abbrev pub blocks_used : Statfs → ℕ
  blocks_used s = (s.f_blocks + 2 ^ bits - s.f_bfree) % 2 ^ bits

  abbrev pub in_all : Statfs → ℕ
  in_all s = (blocks_used s + s.f_bavail) % 2 ^ bits

  abbrev pub percent : Statfs → Float
  percent s =
      fl.float_div (fl.float_of ((blocks_used s * 100 + in_all s / 2) % 2 ^ 64))
        (fl.float_of (in_all s))

  abbrev pub take_stat : Option Statfs → ℤ × Float → ℤ × Float
  take_stat none r = r
  take_stat (some s) r = if ltb 0 s.f_blocks && ltb 0 (in_all s) then (pos 0, percent s) else r

  abbrev pub is_none : Option Statfs → Bool
  is_none none = true
  is_none (some s) = false

  -- The loop over the mounts: one of another name is passed over, and an error ends it.
  unfoldable pub look_up : (disk_name : String) → List String → ℤ × Float → W → (ℤ × Float) × W
  look_up disk_name [] r w = (r, w)
  look_up disk_name (mnt_dir ∷ rest) r w =
      let same = mnt_dir == disk_name in
      let (s, w2) = sys.statfs mnt_dir w in
      let others =
        look_up disk_name rest (if same then take_stat s r else r) (if same then w2 else w) in
      if same && is_none s then (r, w2) else others

  -- From the result of setmntent on
  unfoldable pub with_mounts :
      (disk_name : String) (disk_val : Float) → Option (List String) → W → (ℤ × Option Float) × W
  unfolding look_up
  with_mounts disk_name disk_val none w = ((minus_one, some disk_val), w)
  with_mounts disk_name disk_val (some mounts) w =
      let ((status, val), w2) = look_up disk_name mounts (minus_one, disk_val) w in
      ((status, some val), w2)

  -- The pointers are `none` where they are NULL.
  unfoldable pub eos_get_disk_base : Option String → Option Float → W → (ℤ × Option Float) × W
  unfolding with_mounts
  eos_get_disk_base none disk_val w = ((minus_one, disk_val), w)
  eos_get_disk_base (some disk_name) none w = ((minus_one, none), w)
  eos_get_disk_base (some disk_name) (some disk_val) w =
      let (mtab, w2) = sys.read_mtab w in with_mounts disk_name disk_val mtab w2

  -- if (ret < 0) { ret = eos_get_disk_base(name, &bmu_disk_val); }
  abbrev pub or_else : String → (ℤ × Option Float) × W → (ℤ × Option Float) × W
  or_else name ((ret, val), w) =
      if is_neg ret then eos_get_disk_base (some name) val w else ((ret, val), w)

  abbrev pub tenfold : ℤ × Option Float → ℤ × Option ℤ
  tenfold (ret, none) = (ret, none)
  tenfold (ret, some val) = (ret, some (fl.to_int (fl.float_mul val (fl.float_of 10))))

  -- `last` is "/media/emmc" on the LS1021, and "/media" elsewhere.
  unfoldable pub eos_get_disk_info : (last : String) → W → (ℤ × Option ℤ) × W
  eos_get_disk_info last w =
      let first = eos_get_disk_base (some "/mnt/cfastdisk") (some (fl.float_of 0)) w in
      let (r, w2) = or_else last (or_else "/mnt/sddisk" first) in (tenfold r, w2)
