-- ===== src/Entry/Tests.antt =====
-- The theorem on eos_lib_init at a concrete input, and a run of eos_get_gid.
use libeos.Mmap.{Process, eos_mmap_init, eos_mmap_exit}
use libeos.Prelude.{ℕ, ◌+◌, ◌≡◌, ◌&&◌, refl, ℤ, pos, Option, none, some}
use libeos.Boards.{t104x}
use libeos.Gpio.Sample.{system, start}
use libeos.Gpio.T104x.{gpio_board}
use libeos.Entry.{
  eos_lib_init_p, eos_lib_init_mpc, eos_lib_init_ls1021, eos_lib_init_t104x, eos_get_gid,
}
use libeos.Entry.Windows.{Shows, has_cpu, has_cpld, has_gpio, eos_lib_init_lem}

-- The result and the value.
abbrev result_and_value : {W : Type 0} → Option (ℤ × ℕ × Process W) → Option (ℤ × ℕ)
result_and_value none = none
result_and_value (some (ret, value, p)) = some (ret, value)

eos_lib_init_lem_example :
    Shows (λ q. has_cpu t104x q && has_cpld t104x q) (eos_lib_init_p system t104x start)
    × Shows (has_cpu t104x) (eos_lib_init_mpc system t104x start)
    × Shows
        (λ q. has_gpio (gpio_board t104x) q && has_cpld t104x q)
        (eos_lib_init_ls1021 system t104x (gpio_board t104x) start)
    × Shows
        (λ q. (has_gpio (gpio_board t104x) q && has_cpu t104x q) && has_cpld t104x q)
        (eos_lib_init_t104x system t104x (gpio_board t104x) start)
eos_lib_init_lem_example = eos_lib_init_lem system t104x (gpio_board t104x) start

-- The byte at the base of the window, on a system whose windows hold their addresses.
eos_get_gid_run :
    result_and_value (eos_get_gid system 0xf_e000_0000 7 (record start { mem = λ j. j + 0x21 }))
    ≡ some (pos 0, 0x21)
unfolding eos_get_gid eos_mmap_init eos_mmap_exit
eos_get_gid_run = refl
