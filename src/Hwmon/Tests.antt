-- ===== src/Hwmon/Tests.antt =====
-- Runs of the search of src/fand/hwmon.c.
use amdgpu_fand.Base.{
  ℕ, ◌+◌, ◌<◌, ◌≡◌, refl, arith, List, [], ◌∷◌, Bool, ◌==◌, replicate, some, codes, same_string,
}
use amdgpu_fand.Serialize.Outcome.{Ensures}
use amdgpu_fand.Cache.{FandCache}
use amdgpu_fand.Hwmon.{Sysfs, hwmon_path, set_sysfs_paths}
use amdgpu_fand.Hwmon.Search.{IsDevice, IsLocated, set_sysfs_paths-IsLocated}

-- Card 1 is the only one; the numbers of one digit are enough for it.
abbrev is_hwmon : List ℕ → Bool
is_hwmon name = same_string name (codes "hwmon3")

abbrev sysfs : Sysfs
sysfs = record {
  has_card = λ i. i == 1;
  decimal = λ i. (b'0' + i) ∷ [];
  names = codes "." ∷ codes ".." ∷ codes "hwmon3" ∷ [];
  regex = some is_hwmon;
  realpath = λ path. some (codes "/sys/devices/pci/hwmon3");
}

abbrev empty : FandCache
empty = record {
  pwm = replicate 256 0;
  pwm_enable = replicate 256 0;
  temp_input = replicate 256 0;
  card_idx = 0;
  checksum = replicate 20 0;
}

below_one : (i : ℕ) → i < 1 → i ≡ 0
below_one i h = omega arith

sysfs-IsDevice :
    IsDevice sysfs is_hwmon 1
      (codes "." ∷ codes ".." ∷ [])
      (codes "hwmon3")
      []
      (codes "/sys/devices/pci/hwmon3")
unfolding same_string hwmon_path
sysfs-IsDevice = record {
  has_card = refl;
  lowest = λ i h. rw (below_one i h) refl;
  low = omega arith;
  compiled = refl;
  names = refl;
  others = (refl, (refl, tt));
  matches = refl;
  name_chars = omega arith;
  dir_chars = omega arith;
  name_fits = omega arith;
  leads = refl;
  dir_fits = omega arith;
}

set_sysfs_paths-IsLocated_example :
    Ensures (IsLocated 1 (codes "/sys/devices/pci/hwmon3")) (set_sysfs_paths sysfs [] empty)
set_sysfs_paths-IsLocated_example =
    set_sysfs_paths-IsLocated sysfs is_hwmon 1 (codes "." ∷ codes ".." ∷ []) (codes "hwmon3") []
      (codes "/sys/devices/pci/hwmon3") [] empty sysfs-IsDevice
      (record { temp_input = refl; pwm = refl; pwm_enable = refl })
