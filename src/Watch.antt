-- ===== src/Watch.antt =====
-- src/fand/filesystem.c: the inotify watch of the configuration file. What the system calls answer is the record
-- `Directory`, and the bytes that read gives.
pub mod Events
pub mod Setup
mod Tests
use Prim.Native.Nat.{bit_and}
use amdgpu_fand.Base.{
  ℕ, zero, suc, ◌+◌, ◌-◌, List, [], ◌∷◌, Bool, true, false, not, ◌&&◌, ◌||◌, ◌==◌, ltb,
  if◌then◌else◌, length, take, drop, replicate, Option, none, some, ℤ, pos, negsuc, neg, c_string,
  same_string,
}
use amdgpu_fand.Serialize.Outcome.{Outcome, ret, undefined, out_of_fuel, ◌>>=◌}
use amdgpu_fand.Serialize.Bytes.{from_le}
use amdgpu_fand.Strutils.{strscpy}

-- `struct inotify_watch`
pub record InotifyWatch : Type 0 where
  pub fd : ℤ
  pub wd : ℤ
  pub flags : ℕ
  pub triggered : Bool

-- FSYS_PATH_MAX_LENGTH
abbrev pub path_max_length : ℕ
path_max_length = 256

-- The size of `struct inotify_event` without its name.
abbrev pub event_size : ℕ
event_size = 16

-- strrchr: the characters before the last `c`, and those behind it.
unfoldable pub strrchr : List ℕ → ℕ → Option (List ℕ × List ℕ)
strrchr [] c = none
strrchr (a ∷ s) c = elim (strrchr s c) [
  | some (front, back) ↦ some (a ∷ front, back)
  | none ↦ if a == c then some ([], s) else none
]

-- ENOENT is 2.
unfoldable pub strip_filename : List ℕ → ℤ × List ℕ
strip_filename path = elim (strrchr path b'/') [
  | none ↦ (neg 2, path)
  | some (front, back) ↦ (pos 0, front)
]

-- The path that is left, or nothing where the copy was cut.
unfoldable pub whole_path : ℤ × List ℕ → Option (List ℕ)
whole_path (negsuc n, dst) = none
whole_path (pos n, dst) = some (c_string dst)

-- `fsys_abspath` to a buffer of `size` bytes, of what realpath gives.
unfoldable pub abspath : ℕ → Option (List ℕ) → Outcome (Option (List ℕ))
abspath size none = ret none
abspath size (some resolved) = strscpy (replicate size 0) resolved size >>= λ r. ret (whole_path r)

-- The answers of stat (`errno`, or 0), realpath, stat on a directory, inotify_init1 and inotify_add_watch.
pub record Directory : Type 0 where
  pub stat : ℕ
  pub realpath : Option (List ℕ)
  pub is_dir : List ℕ → Bool
  pub inotify : ℤ
  pub added : ℤ

-- -1 is an error.
unfoldable pub failed : ℤ → Bool
failed (pos n) = false
failed (negsuc zero) = true
failed (negsuc (suc n)) = false

unfoldable pub add_watch : Directory → ℕ → InotifyWatch → ℤ × InotifyWatch
add_watch d flags watch =
    if failed d.inotify || failed d.added
    then (negsuc 0, watch)
    else (pos 0, record { fd = d.inotify; wd = d.added; flags = flags; triggered = false })

unfoldable pub watch_dir : Directory → ℕ → InotifyWatch → ℤ × List ℕ → ℤ × InotifyWatch
watch_dir d flags watch (negsuc n, path) = (negsuc 0, watch)
watch_dir d flags watch (pos n, path) =
    if d.is_dir path then add_watch d flags watch else (negsuc 0, watch)

-- The file's directory is watched, or the path itself where it is one.
unfoldable pub watch_path : Directory → ℕ → InotifyWatch → Option (List ℕ) → ℤ × InotifyWatch
watch_path d flags watch none = (negsuc 0, watch)
watch_path d flags watch (some path) =
    watch_dir d flags watch (if d.is_dir path then (pos 0, path) else strip_filename path)

-- `fsys_watch_init`
unfoldable pub watch_init : Directory → InotifyWatch → ℕ → Outcome (ℤ × InotifyWatch)
watch_init d watch flags =
    if d.stat == 0
    then (abspath path_max_length d.realpath >>= λ path. ret (watch_path d flags watch path))
    else ret (negsuc 0, watch)

unfoldable pub filename : List ℕ → List ℕ
filename path = elim (strrchr path b'/') [ none ↦ path | some (front, back) ↦ back ]

-- The fields of the event that the bytes begin with.
unfoldable pub event_mask : List ℕ → ℕ
event_mask bytes = from_le (take 4 (drop 4 bytes))

unfoldable pub event_len : List ℕ → ℕ
event_len bytes = from_le (take 4 (drop 12 bytes))

unfoldable pub event_name : List ℕ → List ℕ
event_name bytes = c_string (take (event_len bytes) (drop event_size bytes))

unfoldable pub is_change : ℕ → List ℕ → List ℕ → Bool
is_change flags name bytes =
    not (bit_and (event_mask bytes) flags == 0)
    && not (event_len bytes == 0)
    && same_string (event_name bytes) name

-- The loop over the events. Each takes sixteen bytes at least; an event that is cut off is read past the bytes.
unfoldable pub find_change : ℕ → ℕ → List ℕ → List ℕ → Outcome Bool
find_change fuel flags name [] = ret false
find_change zero flags name (b ∷ bytes) = out_of_fuel
find_change (suc fuel) flags name (b ∷ bytes) =
    let later =
      find_change fuel flags name (drop (event_size + event_len (b ∷ bytes)) (b ∷ bytes)) in
    if ltb (length (b ∷ bytes)) (event_size + event_len (b ∷ bytes))
    then undefined
    else if is_change flags name (b ∷ bytes)
    then ret true
    else later

-- `fsys_watch_event`, of the bytes that read gives, none where it fails.
unfoldable pub watch_event : Option (List ℕ) → List ℕ → InotifyWatch → Outcome (ℤ × InotifyWatch)
watch_event none path watch = ret (pos 0, record watch { triggered = false })
watch_event (some bytes) path watch =
    find_change (length bytes) watch.flags (filename path) bytes >>= λ found.
    ret (pos 0, record watch { triggered = found })

-- `fsys_watch_clear`, by the results of inotify_rm_watch and close.
unfoldable pub watch_clear : ℤ → ℤ → InotifyWatch → ℤ
watch_clear removed closed watch =
    if failed watch.fd && failed watch.wd
    then pos 0
    else if failed removed || failed closed
    then negsuc 0
    else pos 0
