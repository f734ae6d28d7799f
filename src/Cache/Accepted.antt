-- ===== src/Cache/Accepted.antt =====
-- What is known of a cache that `cache_load` of src/fand/cache.c accepts.
use amdgpu_fand.Base.{
  ℕ, ◌≡◌, refl, ap, sym, ◌∙◌, arith, List, [], ◌∷◌, Bool, true, false, not, ◌||◌, ltb, length, take,
  length-take, c_string, codes, same_string, ==→eq, ℤ, pos, negsuc, Bool-cases, inl, inr, le→ltb,
}
use amdgpu_fand.Serialize.Outcome.{ret, Ensures}
use amdgpu_fand.Cache.{
  cache_size, FandCache, digest, terminated, copied_cache, cache_unpack, exists_in_sysfs,
  check_files, compare_digest, cache_validate, validated, load_bytes, Reading, read_whole,
  cache_load,
}
use amdgpu_fand.Watch.{failed}
use amdgpu_fand.Cache.Fields.{sha1, digest-sha1}

same_string_sound : (s t : List ℕ) → same_string s t ≡ true → s ≡ t
unfolding same_string
same_string_sound [] [] e = refl
same_string_sound [] (c ∷ t) e = cc
same_string_sound (c ∷ s) [] e = cc
same_string_sound (c ∷ s) (c' ∷ t) e =
    let first : c ≡ c' = ==→eq c c' (ground arith) in
    let later : same_string s t ≡ true = ground arith in
    rw first (ap (λ (r : List ℕ). c' ∷ r) (same_string_sound s t later))

-- A path below /sys to a file that exists.
abbrev pub IsInSysfs : (List ℕ → Bool) → List ℕ → Type 0
IsInSysfs exists path = (exists (c_string path) ≡ true) × (take 5 (c_string path) ≡ codes "/sys/")

-- The three files exist below /sys, and the digest of the first 772 bytes is the checksum.
pub record IsAccepted (exists : List ℕ → Bool) (bytes : List ℕ) (cache : FandCache) : Type 0 where
  pub pwm_there : IsInSysfs exists cache.pwm
  pub pwm_enable_there : IsInSysfs exists cache.pwm_enable
  pub temp_input_there : IsInSysfs exists cache.temp_input
  pub intact : sha1 (take 772 bytes) ≡ cache.checksum

exists_in_sysfs-IsInSysfs :
    (exists : List ℕ → Bool) (path : List ℕ)
    → exists_in_sysfs exists path ≡ true
    → IsInSysfs exists path
unfolding exists_in_sysfs
exists_in_sysfs-IsInSysfs exists path e =
    (ground arith, same_string_sound (take 5 (c_string path)) (codes "/sys/") (ground arith))

check_files_zero :
    (exists : List ℕ → Bool) (cache : FandCache)
    → check_files exists cache ≡ pos 0
    → (exists_in_sysfs exists cache.pwm ≡ true)
      × (exists_in_sysfs exists cache.pwm_enable ≡ true)
      × (exists_in_sysfs exists cache.temp_input ≡ true)
unfolding check_files
check_files_zero exists cache e = ground arith

compare_digest-IsAccepted :
    (exists : List ℕ → Bool) (bytes sum : List ℕ) (cache : FandCache)
    → sum ≡ sha1 (take 772 bytes)
    → compare_digest exists cache sum ≡ pos 0
    → IsAccepted exists bytes cache
unfolding compare_digest
compare_digest-IsAccepted exists bytes sum cache is_sum e =
    elim (Bool-cases (same_string sum cache.checksum)) [
      | inr other ↦ absurd (negsuc-ne-pos (rw other at e))
      | inl same ↦
          let (a, b, c) = check_files_zero exists cache (rw same at e) in
          record {
            pwm_there = exists_in_sysfs-IsInSysfs exists cache.pwm a;
            pwm_enable_there = exists_in_sysfs-IsInSysfs exists cache.pwm_enable b;
            temp_input_there = exists_in_sysfs-IsInSysfs exists cache.temp_input c;
            intact = sym is_sum ∙ same_string_sound sum cache.checksum same;
          }
    ]
  where
    negsuc-ne-pos : {a b : ℕ} → negsuc a ≡ pos b → ⊥
    negsuc-ne-pos h = cc

-- A status of 0 comes with a cache that is accepted.
abbrev pub IsLoad : (List ℕ → Bool) → List ℕ → ℤ × FandCache → Type 0
IsLoad exists bytes (status, cache) = status ≡ pos 0 → IsAccepted exists bytes cache

module _ (exists : List ℕ → Bool) (stack bytes : List ℕ) (fresh : length stack ≡ 64)
    (whole : length bytes ≡ cache_size) where
  digest_bytes : digest stack (take 772 bytes) ≡ ret (sha1 (take 772 bytes))
  digest_bytes =
      digest-sha1 stack (take 772 bytes) fresh (omega (arith, length-take 772 bytes, whole))

  validated-IsLoad :
      (cache : FandCache)
      → Ensures (IsLoad exists bytes) (validated exists stack bytes (pos cache_size, cache))
  unfolding validated cache_validate
  validated-IsLoad cache =
      rw digest_bytes
        (λ e. compare_digest-IsAccepted exists bytes (sha1 (take 772 bytes)) cache refl e)

  load_bytes-IsLoad :
      (old : FandCache) → Ensures (IsLoad exists bytes) (load_bytes exists false stack bytes old)
  unfolding load_bytes cache_unpack
  load_bytes-IsLoad old =
      let full : ltb (length bytes) cache_size ≡ false = le→ltb _ _ (omega (arith, whole)) in
      rw full (validated-IsLoad (terminated (copied_cache bytes)))

-- Where the struct has no padding, and whatever the buffer of 792 bytes holds after the read: `cache_load` reads
-- nothing outside of it and ends; where it returns 0, the three paths that it leaves begin with `/sys/` and
-- exist, and the SHA-1 digest of the first 772 bytes of the buffer is the checksum.
pub cache_load-IsLoad :
    (exists : List ℕ → Bool) (stack : List ℕ) (r : Reading) (old : FandCache)
    → length stack ≡ 64
    → length r.bytes ≡ cache_size
    → Ensures (IsLoad exists r.bytes) (cache_load exists false stack r old)
unfolding cache_load
cache_load-IsLoad exists stack r old fresh whole =
    elim (Bool-cases (not r.there || failed r.opened || not (read_whole r.nbytes))) [
      | inl e ↦ rw e (λ h. cc)
      | inr e ↦ rw e (load_bytes-IsLoad exists stack r.bytes fresh whole old)
    ]
