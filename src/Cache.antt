-- ===== src/Cache.antt =====
-- src/fand/cache.c: the cached paths of the device, with the SHA-1 digest that guards them. What the system calls
-- answer are the records `Reading` and `Writing`; `exists` answers for `fsys_file_exists`.
pub mod Fields
pub mod Packing
pub mod Unpacking
pub mod Roundtrip
pub mod Accepted
mod Tests
use amdgpu_fand.Base.{
  ℕ, zero, suc, ◌+◌, ◌-◌, List, [], ◌∷◌, ◌++◌, Bool, true, false, not, ◌&&◌, ◌||◌, ◌==◌, ltb,
  if◌then◌else◌, length, take, drop, set, get_or, replicate, Option, none, some, ℤ, pos, negsuc,
  ◌+ℤ◌, codes, c_string, same_string,
}
use amdgpu_fand.Serialize.Outcome.{Outcome, ret, undefined, ◌>>=◌}
use amdgpu_fand.Serialize.Bytes.{from_le}
use amdgpu_fand.Serialize.Pack.{Arg, val, ptr, Packed, packf}
use amdgpu_fand.Serialize.Unpack.{Dest, count, room, unpackf}
use amdgpu_fand.Sha1.{Sha1Ctx, init, update, final}
use amdgpu_fand.Watch.{failed}

-- HWMON_PATH_SIZE, SHA1_DIGESTSIZE and CACHE_SIZE.
abbrev pub hwmon_path_size : ℕ
hwmon_path_size = 256

abbrev pub sha1_digestsize : ℕ
sha1_digestsize = 20

abbrev pub cache_size : ℕ
cache_size = 792

-- `struct fand_cache`
pub record FandCache : Type 0 where
  pub pwm : List ℕ
  pub pwm_enable : List ℕ
  pub temp_input : List ℕ
  pub card_idx : ℕ
  pub checksum : List ℕ

unfoldable pub digest_result : Option (List ℕ) → Outcome (List ℕ)
digest_result none = undefined
digest_result (some sum) = ret sum

unfoldable pub finish_digest : Option Sha1Ctx → Outcome (List ℕ)
finish_digest none = undefined
finish_digest (some ctx) = digest_result (final ctx)

-- The three calls on a context; `stack` is what its buffer holds before.
unfoldable pub digest : List ℕ → List ℕ → Outcome (List ℕ)
digest stack bytes = finish_digest (update (init stack) bytes)

-- The second `packf`, behind the bytes of the first.
unfoldable pub pack_digest : ℕ → ℕ → List ℕ → List ℕ → Packed
pack_digest nbytes bufsize buffer sum =
    packf (drop nbytes buffer) (bufsize - nbytes) (codes "%*hhu")
      (val sha1_digestsize ∷ ptr sum ∷ [])
    >>= λ r. ret (pos nbytes +ℤ r.0, take nbytes buffer ++ r.1)

-- A negative count becomes a length that no buffer has.
unfoldable pub add_digest : List ℕ → ℕ → ℤ × List ℕ → Packed
add_digest stack bufsize (negsuc n, buffer) = undefined
add_digest stack bufsize (pos nbytes, buffer) =
    digest stack (take nbytes buffer) >>= pack_digest nbytes bufsize buffer

-- `cache_pack`
unfoldable pub cache_pack : FandCache → List ℕ → List ℕ → ℕ → Packed
cache_pack cache stack buffer bufsize =
    if ltb bufsize cache_size
    then ret (negsuc 0, buffer)
    else (packf buffer bufsize (codes "%*hhu%*hhu%*hhu%u") (
          val hwmon_path_size
          ∷ ptr cache.pwm
          ∷ val hwmon_path_size
          ∷ ptr cache.pwm_enable
          ∷ val hwmon_path_size
          ∷ ptr cache.temp_input
          ∷ val cache.card_idx
          ∷ [])
        >>= add_digest stack bufsize)

-- The NUL at the end of each path.
unfoldable pub terminated : FandCache → FandCache
terminated cache = record cache {
  pwm = set cache.pwm (hwmon_path_size - 1) 0;
  pwm_enable = set cache.pwm_enable (hwmon_path_size - 1) 0;
  temp_input = set cache.temp_input (hwmon_path_size - 1) 0;
}

-- memcpy into a struct without padding.
unfoldable pub copied_cache : List ℕ → FandCache
copied_cache buffer = record {
  pwm = take hwmon_path_size buffer;
  pwm_enable = take hwmon_path_size (drop 256 buffer);
  temp_input = take hwmon_path_size (drop 512 buffer);
  card_idx = from_le (take 4 (drop 768 buffer));
  checksum = take sha1_digestsize (drop 772 buffer);
}

-- The fields that `unpackf` has stored; the others keep their values.
unfoldable pub stored_cache : FandCache → List (List ℕ) → FandCache
stored_cache cache out = record {
  pwm = get_or out 0 cache.pwm;
  pwm_enable = get_or out 1 cache.pwm_enable;
  temp_input = get_or out 2 cache.temp_input;
  card_idx = (if ltb 3 (length out) then from_le (get_or out 3 []) else cache.card_idx);
  checksum = get_or out 4 cache.checksum;
}

-- `cache_unpack`; whether the struct is padded depends on the machine.
unfoldable pub cache_unpack : Bool → List ℕ → ℕ → FandCache → Outcome (ℤ × FandCache)
cache_unpack padded buffer bufsize cache =
    if ltb bufsize cache_size
    then ret (negsuc 0, cache)
    else if padded
    then (unpackf buffer bufsize (codes "%*hhu%*hhu%*hhu%u%*hhu") (
          count hwmon_path_size
          ∷ room hwmon_path_size
          ∷ count hwmon_path_size
          ∷ room hwmon_path_size
          ∷ count hwmon_path_size
          ∷ room hwmon_path_size
          ∷ room 4
          ∷ count sha1_digestsize
          ∷ room sha1_digestsize
          ∷ [])
        >>= λ r. ret (r.0, terminated (stored_cache cache r.1)))
    else if ltb (length buffer) cache_size
    then undefined
    else ret (pos cache_size, terminated (copied_cache buffer))

-- `cache_file_exists_in_sysfs`
unfoldable pub exists_in_sysfs : (List ℕ → Bool) → List ℕ → Bool
exists_in_sysfs exists file =
    exists (c_string file) && same_string (take 5 (c_string file)) (codes "/sys/")

unfoldable pub check_files : (List ℕ → Bool) → FandCache → ℤ
check_files exists cache =
    if not (exists_in_sysfs exists cache.pwm)
      || not (exists_in_sysfs exists cache.pwm_enable)
      || not (exists_in_sysfs exists cache.temp_input)
    then negsuc 0
    else pos 0

-- memcmp, of two digests of 20 bytes, and the tests behind it.
unfoldable pub compare_digest : (List ℕ → Bool) → FandCache → List ℕ → ℤ
compare_digest exists cache sum =
    if same_string sum cache.checksum then check_files exists cache else negsuc 0

-- `cache_validate`
unfoldable pub cache_validate : (List ℕ → Bool) → List ℕ → List ℕ → ℤ → FandCache → Outcome ℤ
cache_validate exists stack buffer (negsuc n) cache = ret (negsuc 0)
cache_validate exists stack buffer (pos nbytes) cache =
    if nbytes == cache_size
    then (digest stack (take (nbytes - sha1_digestsize) buffer) >>= λ sum.
        ret (compare_digest exists cache sum))
    else ret (negsuc 0)

unfoldable pub validated :
    (List ℕ → Bool) → List ℕ → List ℕ → ℤ × FandCache → Outcome (ℤ × FandCache)
validated exists stack buffer (negsuc n, cache) = ret (negsuc 0, cache)
validated exists stack buffer (pos nbytes, cache) =
    cache_validate exists stack buffer (pos nbytes) cache >>= λ status. ret (status, cache)

-- The end of `cache_load`, on the bytes of the file.
unfoldable pub load_bytes :
    (List ℕ → Bool) → Bool → List ℕ → List ℕ → FandCache → Outcome (ℤ × FandCache)
load_bytes exists padded stack buffer cache =
    cache_unpack padded buffer cache_size cache >>= validated exists stack buffer

-- Whether the file is there, and what open and read give; a failure of close is for the log only.
pub record Reading : Type 0 where
  pub there : Bool
  pub opened : ℤ
  pub nbytes : ℤ
  pub bytes : List ℕ

unfoldable pub read_whole : ℤ → Bool
read_whole (pos n) = n == cache_size
read_whole (negsuc n) = false

-- `cache_load`
unfoldable pub cache_load :
    (List ℕ → Bool) → Bool → List ℕ → Reading → FandCache → Outcome (ℤ × FandCache)
cache_load exists padded stack r cache =
    if not r.there || failed r.opened || not (read_whole r.nbytes)
    then ret (negsuc 0, cache)
    else load_bytes exists padded stack r.bytes cache

-- Whether the directory is there, and what mkdir, open, write and close give.
pub record Writing : Type 0 where
  pub dir_there : Bool
  pub dir_made : ℤ
  pub opened : ℤ
  pub written : ℤ
  pub closed : ℤ

-- The status, and the bytes given to write.
unfoldable pub write_bytes : Writing → ℤ × List ℕ → ℤ × Option (List ℕ)
write_bytes w (negsuc n, buffer) = (negsuc 0, none)
write_bytes w (pos n, buffer) =
    if failed w.opened
    then (negsuc 0, none)
    else (if not (read_whole w.written) || failed w.closed then negsuc 0 else pos 0, some buffer)

unfoldable pub made : ℤ → Bool
made (pos n) = n == 0
made (negsuc n) = false

-- `cache_write`; `buffer` is what the stack holds before.
unfoldable pub cache_write : Writing → List ℕ → List ℕ → FandCache → Outcome (ℤ × Option (List ℕ))
cache_write w stack buffer cache =
    if not w.dir_there && not (made w.dir_made)
    then ret (negsuc 0, none)
    else (cache_pack cache stack buffer cache_size >>= λ r. ret (write_bytes w r))
