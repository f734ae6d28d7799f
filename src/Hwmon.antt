-- ===== src/Hwmon.antt =====
-- src/fand/hwmon.c: the search for the device's files. What the system finds is the record `Sysfs`.
pub mod Paths
pub mod Search
mod Tests
use amdgpu_fand.Base.{
  ℕ, zero, suc, ◌+◌, ◌-◌, List, [], ◌∷◌, ◌++◌, Bool, true, false, if◌then◌else◌, length, take, drop,
  replicate, Option, none, some, ℤ, pos, negsuc, ◌+ℤ◌, codes, c_string, ltb,
}
use amdgpu_fand.Serialize.Outcome.{Outcome, ret, ◌>>=◌}
use amdgpu_fand.Strutils.{strscpy}
use amdgpu_fand.Watch.{abspath}
use amdgpu_fand.Cache.{FandCache, hwmon_path_size}

-- MAX_DRI_DIR_IDX
abbrev pub max_dri_dir_idx : ℕ
max_dri_dir_idx = 128

-- Whether the file of a card index exists; the characters that snprintf gives for `%u`; the names in the directory;
-- which of them the expression matches, none where it is refused; and realpath.
pub record Sysfs : Type 0 where
  pub has_card : ℕ → Bool
  pub decimal : ℕ → List ℕ
  pub names : List (List ℕ)
  pub regex : Option (List ℕ → Bool)
  pub realpath : List ℕ → Option (List ℕ)

-- SYSFS_HWMON_PATH_FMT with a card index.
unfoldable pub hwmon_path : Sysfs → ℕ → List ℕ
hwmon_path s card_idx = codes "/sys/class/drm/card" ++ s.decimal card_idx ++ codes "/device/hwmon/"

-- The loop from index `i` on, `left` rounds at most. The path of an index below 128 always fits.
unfoldable pub find_card : (ℕ → Bool) → ℕ → ℕ → ℤ
find_card has_card zero i = negsuc 0
find_card has_card (suc left) i =
    let later = find_card has_card left (i + 1) in if has_card i then pos i else later

-- `hwmon_detect_card_index`
unfoldable pub detect_card_index : Sysfs → ℤ
detect_card_index s = find_card s.has_card max_dri_dir_idx 0

unfoldable pub find_entry : (List ℕ → Bool) → List (List ℕ) → Option (List ℕ)
find_entry regex [] = none
find_entry regex (name ∷ names) =
    let later = find_entry regex names in if regex name then some name else later

-- What `fsys_abspath` leaves: its result, and the path; where it fails the path is what it was.
unfoldable pub resolved : List ℕ → Option (List ℕ) → ℤ × List ℕ
resolved dst none = (negsuc 0, dst)
resolved dst (some path) = (pos (length path), path)

unfoldable pub follow : Sysfs → List ℕ → List ℕ → ℤ × List ℕ → Outcome (ℤ × List ℕ)
follow s dst base (negsuc n, tail) = ret (negsuc 0, dst)
follow s dst base (pos n, tail) =
    abspath hwmon_path_size (s.realpath (base ++ c_string tail)) >>= λ path. ret (resolved dst path)

-- Where no entry matches the status is 0, and `dst` is as it was.
unfoldable pub follow_entry : Sysfs → List ℕ → List ℕ → Option (List ℕ) → Outcome (ℤ × List ℕ)
follow_entry s dst base none = ret (pos 0, dst)
follow_entry s dst base (some name) =
    strscpy (replicate (hwmon_path_size - length base) 0) name (hwmon_path_size - length base)
    >>= follow s dst base

unfoldable pub search_dir : Sysfs → List ℕ → List ℕ → Option (List ℕ → Bool) → Outcome (ℤ × List ℕ)
search_dir s dst base none = ret (negsuc 0, dst)
search_dir s dst base (some regex) = follow_entry s dst base (find_entry regex s.names)

-- `hwmon_detect_iface_dir`, where the directory can be opened; `dst` is the path that its buffer holds before.
unfoldable pub detect_iface_dir : Sysfs → List ℕ → ℕ → Outcome (ℤ × List ℕ)
detect_iface_dir s dst card_idx =
    if ltb hwmon_path_size (length (hwmon_path s card_idx))
    then ret (negsuc 0, dst)
    else search_dir s dst (hwmon_path s card_idx) s.regex

-- `pos += ...` for a call that writes to `dst + pos`.
unfoldable pub moved : ℕ → List ℕ → ℤ × List ℕ → ℤ × List ℕ
moved at dst (n, tail) = (pos at +ℤ n, take at dst ++ tail)

unfoldable pub add_filename : List ℕ → ℤ × List ℕ → Outcome (ℤ × List ℕ)
add_filename filename (negsuc n, dst) = ret (negsuc n, dst)
add_filename filename (pos at, dst) =
    strscpy (drop at dst) filename (hwmon_path_size - at) >>= λ r. ret (r.0, take at dst ++ r.1)

unfoldable pub add_slash : List ℕ → ℤ × List ℕ → Outcome (ℤ × List ℕ)
add_slash filename (negsuc n, dst) = ret (negsuc n, dst)
add_slash filename (pos at, dst) = strscpy (drop at dst) (codes "/") (hwmon_path_size - at) >>= λ r.
    add_filename filename (moved at dst r)

-- `hwmon_init_single_sysfs_path`: the status, and the array as it leaves it.
unfoldable pub init_single_sysfs_path : List ℕ → List ℕ → List ℕ → Outcome (ℤ × List ℕ)
init_single_sysfs_path dst dir filename = strscpy dst dir hwmon_path_size >>= add_slash filename

abbrev pub Located : Type 0
Located = Outcome (ℤ × FandCache)

unfoldable pub set_pwm_enable : FandCache → ℤ × List ℕ → ℤ × FandCache
set_pwm_enable cache (status, path) = (status, record cache { pwm_enable = path })

unfoldable pub set_pwm : List ℕ → FandCache → ℤ × List ℕ → Located
set_pwm dir cache (negsuc n, path) = ret (negsuc n, record cache { pwm = path })
set_pwm dir cache (pos n, path) =
    init_single_sysfs_path cache.pwm_enable dir (codes "pwm1_enable") >>= λ r.
    ret (set_pwm_enable (record cache { pwm = path }) r)

unfoldable pub set_temp_input : List ℕ → FandCache → ℤ × List ℕ → Located
set_temp_input dir cache (negsuc n, path) = ret (negsuc n, record cache { temp_input = path })
set_temp_input dir cache (pos n, path) =
    init_single_sysfs_path cache.pwm dir (codes "pwm1")
    >>= set_pwm dir (record cache { temp_input = path })

unfoldable pub set_paths : FandCache → ℤ × List ℕ → Located
set_paths cache (negsuc n, dir) = ret (negsuc n, cache)
set_paths cache (pos n, dir) =
    init_single_sysfs_path cache.temp_input dir (codes "temp1_input") >>= set_temp_input dir cache

unfoldable pub set_paths_of : Sysfs → List ℕ → FandCache → ℤ → Located
set_paths_of s stack cache (negsuc n) = ret (negsuc n, cache)
set_paths_of s stack cache (pos card_idx) =
    detect_iface_dir s stack card_idx >>= set_paths (record cache { card_idx = card_idx })

-- `hwmon_set_sysfs_paths`; `stack` is what the buffer of the directory holds before.
unfoldable pub set_sysfs_paths : Sysfs → List ℕ → FandCache → Located
set_sysfs_paths s stack cache = set_paths_of s stack cache (detect_card_index s)
