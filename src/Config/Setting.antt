-- ===== src/Config/Setting.antt =====
-- The handlers of src/fand/config.c that store one value.
use amdgpu_fand.Base.{
  ℕ, zero, ◌%◌, ◌^◌, List, true, false, if◌then◌else◌, Option, some, ℤ, pos, negsuc, codes,
  same_string,
}
use amdgpu_fand.Fanctrl.{FandConfig}
use amdgpu_fand.Strutils.{strstoul_range}
use amdgpu_fand.Config.CLibrary.{CLibrary}

-- USHRT_MAX and UCHAR_MAX.
abbrev pub ushrt_max : ℕ
ushrt_max = 65535

abbrev pub uchar_max : ℕ
uchar_max = 255

-- A result of 0 comes with a number stored.
unfoldable pub store_interval : FandConfig → ℤ × Option ℕ → ℤ × FandConfig
store_interval config (pos zero, some ul) = (pos 0, record config { interval = ul % 2 ^ 16 })
store_interval config (status, stored) = (status, config)

unfoldable pub set_interval : CLibrary → FandConfig → List ℕ → ℤ × FandConfig
set_interval lib config value = store_interval config (strstoul_range lib.strtoul value 0 ushrt_max)

unfoldable pub store_hysteresis : FandConfig → ℤ × Option ℕ → ℤ × FandConfig
store_hysteresis config (pos zero, some ul) = (pos 0, record config { hysteresis = ul % 2 ^ 8 })
store_hysteresis config (status, stored) = (status, config)

unfoldable pub set_hysteresis : CLibrary → FandConfig → List ℕ → ℤ × FandConfig
set_hysteresis lib config value =
    store_hysteresis config (strstoul_range lib.strtoul value 0 uchar_max)

unfoldable pub set_throttle : FandConfig → List ℕ → ℤ × FandConfig
set_throttle config value =
    if same_string value (codes "true")
    then (pos 0, record config { throttle = true })
    else if same_string value (codes "false")
    then (pos 0, record config { throttle = false })
    else (negsuc 0, config)
