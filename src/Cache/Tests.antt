-- ===== src/Cache/Tests.antt =====
-- Runs of the cache of src/fand/cache.c.
use amdgpu_fand.Base.{
  ℕ, ◌≡◌, refl, arith, List, [], ◌++◌, Bool, true, false, replicate, pos, negsuc, codes, c_string,
  same_string,
}
use amdgpu_fand.Serialize.Outcome.{ret, ◌>>=◌, Ensures}
use amdgpu_fand.Watch.{failed}
use amdgpu_fand.Cache.{
  FandCache, cache_size, cache_pack, load_bytes, check_files, exists_in_sysfs, Reading, read_whole,
  cache_load,
}
use amdgpu_fand.Cache.Fields.{IsCache}
use amdgpu_fand.Cache.Packing.{with_checksum}
use amdgpu_fand.Cache.Roundtrip.{load_bytes-cache_pack}
use amdgpu_fand.Cache.Accepted.{IsLoad, cache_load-IsLoad}

-- Every file exists.
abbrev exists : List ℕ → Bool
exists path = true

abbrev cache : FandCache
cache = record {
  pwm = codes "/sys/pwm1" ++ replicate 247 0;
  pwm_enable = codes "/sys/pwm1_enable" ++ replicate 240 0;
  temp_input = codes "/sys/temp1_input" ++ replicate 240 0;
  card_idx = 1;
  checksum = [];
}

cache-IsCache : IsCache cache
cache-IsCache = record {
  pwm_size = refl;
  pwm_enable_size = refl;
  temp_input_size = refl;
  pwm_end = refl;
  pwm_enable_end = refl;
  temp_input_end = refl;
  card_fits = omega arith;
}

files_table :
    (exists_in_sysfs exists cache.pwm ≡ true)
    × (exists_in_sysfs exists (codes "/etc/passwd") ≡ false)
    × (exists_in_sysfs exists (codes "/sys") ≡ false)
unfolding exists_in_sysfs c_string same_string
files_table = (refl, refl, refl)

load_bytes-cache_pack_example :
    (cache_pack cache (replicate 64 7) (replicate 792 9) cache_size >>= λ r.
    load_bytes exists true (replicate 64 8) r.1 cache)
    ≡ ret (check_files exists (with_checksum cache), with_checksum cache)
load_bytes-cache_pack_example =
    load_bytes-cache_pack exists true cache cache (replicate 64 7) (replicate 64 8)
      (replicate 792 9) cache-IsCache refl refl refl

abbrev reading : Reading
reading = record { there = true; opened = pos 3; nbytes = pos 792; bytes = replicate 792 0 }

cache_load-IsLoad_example :
    Ensures
      (IsLoad exists (replicate 792 0))
      (cache_load exists false (replicate 64 0) reading cache)
cache_load-IsLoad_example = cache_load-IsLoad exists (replicate 64 0) reading cache refl refl

-- A file of another size is refused.
short_reading :
    cache_load exists false (replicate 64 0) (record reading { nbytes = pos 791 }) cache
    ≡ ret (negsuc 0, cache)
unfolding cache_load failed read_whole
short_reading = refl
