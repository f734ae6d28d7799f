-- ===== src/Cache/Roundtrip.antt =====
-- A cache that src/fand/cache.c writes is the one that it reads.
use amdgpu_fand.Base.{
  ℕ, ◌≡◌, refl, ap, sym, ◌∙◌, arith, List, [], ◌∷◌, ◌++◌, Bool, true, length, take, same_string,
  ==_refl, ℤ, pos,
}
use amdgpu_fand.Serialize.Outcome.{Outcome, ret, ◌>>=◌}
use amdgpu_fand.Serialize.Pack.{Packed}
use amdgpu_fand.Cache.{
  cache_size, FandCache, digest, cache_pack, check_files, compare_digest, cache_validate, validated,
  load_bytes,
}
use amdgpu_fand.Cache.Fields.{
  IsCache, path_bytes, take_exact, length-path_bytes, sha1, length-sha1, digest-sha1,
}
use amdgpu_fand.Cache.Packing.{cache_bytes, with_checksum, cache_pack-cache_bytes}
use amdgpu_fand.Cache.Unpacking.{cache_unpack-bytes}

same_string_refl : (s : List ℕ) → same_string s s ≡ true
unfolding same_string
same_string_refl [] = refl
same_string_refl (c ∷ s) = rw (==_refl c, same_string_refl s) refl

-- The digest of the bytes read is the checksum that stands behind them.
validates :
    (exists : List ℕ → Bool) (stack bytes sum : List ℕ) (cache : FandCache)
    → length stack ≡ 64
    → length bytes ≡ 772
    → sum ≡ sha1 bytes
    → cache.checksum ≡ sum
    → validated exists stack (bytes ++ sum) (pos cache_size, cache)
      ≡ ret (check_files exists cache, cache)
unfolding validated cache_validate compare_digest
validates exists stack bytes sum cache fresh len is_sum stored =
    let taken : digest stack (take 772 (bytes ++ sum)) ≡ ret sum =
      ap (digest stack) (take_exact 772 bytes sum len)
      ∙ digest-sha1 stack bytes fresh (omega (arith, len))
      ∙ ap ret (sym is_sum) in
    let same : same_string sum cache.checksum ≡ true = rw stored (same_string_refl sum) in
    rw (taken, same) refl

-- What `cache_pack` writes, to a buffer of 792 bytes, of a cache whose paths fill their arrays and end with a
-- NUL there and whose index is an `unsigned`, the end of `cache_load` reads back, in either of its ways and
-- whatever the cache held before: every field is the one written, with the SHA-1 digest for the checksum, and
-- the bytes pass the comparison of the digests, so that the status is that of the tests of the three files.
pub load_bytes-cache_pack :
    (exists : List ℕ → Bool) (is_padded : Bool) (cache old : FandCache)
    (stack stack' buffer : List ℕ)
    → IsCache cache
    → length stack ≡ 64
    → length stack' ≡ 64
    → length buffer ≡ cache_size
    → (cache_pack cache stack buffer cache_size >>= λ r. load_bytes exists is_padded stack' r.1 old)
      ≡ ret (check_files exists (with_checksum cache), with_checksum cache)
unfolding load_bytes
load_bytes-cache_pack exists is_padded cache old stack stack' buffer ok fresh fresh' wide =
    ap (λ (p : Packed). p >>= λ r. load_bytes exists is_padded stack' r.1 old)
      (cache_pack-cache_bytes cache stack buffer ok fresh wide)
    ∙ ap (λ (o : Outcome (ℤ × FandCache)). o >>= validated exists stack' (cache_bytes cache))
        (cache_unpack-bytes cache ok (sha1 (path_bytes cache)) (length-sha1 (path_bytes cache))
          is_padded old)
    ∙ validates exists stack' (path_bytes cache) (sha1 (path_bytes cache)) (with_checksum cache)
        fresh' (length-path_bytes cache ok) refl refl
