-- ===== src/Cache/Fields.antt =====
-- The bytes of the cache file of src/fand/cache.c.
use amdgpu_fand.Base.{
  ℕ, ◌-◌, ◌/◌, ◌^◌, ◌<◌, ◌≡◌, refl, ap, ◌∙◌, arith, List, [], ◌∷◌, ◌++◌, All, length, length-append,
  take, drop, take_all, drop-append, take-append, set, some,
}
use amdgpu_fand.Serialize.Outcome.{ret}
use amdgpu_fand.Serialize.Bytes.{le_bytes, length-le_bytes}
use amdgpu_fand.Serialize.Conversion.{hhu, u}
use amdgpu_fand.Serialize.Fields.{Field, one, many, IsField, field_bytes, encode}
use amdgpu_fand.Sha1.{Sha1Ctx, initial, init, final, word_bytes, digest_of}
use amdgpu_fand.Sha1.Stream.{Holds, update-Holds}
use amdgpu_fand.Sha1.Final.{padded, final-digest}
use amdgpu_fand.Sha1.Blocks.{absorb}
use amdgpu_fand.Cache.{
  hwmon_path_size, sha1_digestsize, FandCache, digest_result, finish_digest, digest,
}

-- Paths that fill their arrays and end with a NUL there, and an index that an `unsigned` holds.
pub record IsCache (cache : FandCache) : Type 0 where
  pub pwm_size : length cache.pwm ≡ hwmon_path_size
  pub pwm_enable_size : length cache.pwm_enable ≡ hwmon_path_size
  pub temp_input_size : length cache.temp_input ≡ hwmon_path_size
  pub pwm_end : set cache.pwm 255 0 ≡ cache.pwm
  pub pwm_enable_end : set cache.pwm_enable 255 0 ≡ cache.pwm_enable
  pub temp_input_end : set cache.temp_input 255 0 ≡ cache.temp_input
  pub card_fits : cache.card_idx < 256 ^ 4

abbrev pub path_fields : FandCache → List Field
path_fields cache =
    many hhu hwmon_path_size cache.pwm
    ∷ many hhu hwmon_path_size cache.pwm_enable
    ∷ many hhu hwmon_path_size cache.temp_input
    ∷ one u cache.card_idx
    ∷ []

-- What the digest is taken of.
abbrev pub path_bytes : FandCache → List ℕ
path_bytes cache =
    cache.pwm ++ (cache.pwm_enable ++ (cache.temp_input ++ (le_bytes 4 cache.card_idx ++ [])))

pub take_exact : (n : ℕ) (xs ys : List ℕ) → length xs ≡ n → take n (xs ++ ys) ≡ xs
take_exact n xs ys e = rw (← e) (take-append xs ys)

pub drop_exact : (n : ℕ) (xs ys : List ℕ) → length xs ≡ n → drop n (xs ++ ys) ≡ ys
drop_exact n xs ys e = rw (← e) (drop-append xs ys)

module _ (cache : FandCache) (ok : IsCache cache) where
  pub encode-path_fields : encode (path_fields cache) ≡ path_bytes cache
  unfolding encode field_bytes
  encode-path_fields =
      rw
        (
          take_all cache.pwm hwmon_path_size ok.pwm_size,
          take_all cache.pwm_enable hwmon_path_size ok.pwm_enable_size,
          take_all cache.temp_input hwmon_path_size ok.temp_input_size,
        )
        refl

  pub length-path_bytes : length (path_bytes cache) ≡ 772
  length-path_bytes = omega (
    arith,
    length-append cache.pwm
        (cache.pwm_enable ++ (cache.temp_input ++ (le_bytes 4 cache.card_idx ++ []))),
    length-append cache.pwm_enable (cache.temp_input ++ (le_bytes 4 cache.card_idx ++ [])),
    length-append cache.temp_input (le_bytes 4 cache.card_idx ++ []),
    length-append (le_bytes 4 cache.card_idx) [],
    length-le_bytes 4 cache.card_idx,
    ok.pwm_size,
    ok.pwm_enable_size,
    ok.temp_input_size,
  )

  pub path_fields-IsField : All IsField (path_fields cache)
  path_fields-IsField = (
    (omega arith, omega arith, omega (arith, ok.pwm_size)),
    (
      (omega arith, omega arith, omega (arith, ok.pwm_enable_size)),
      ((omega arith, omega arith, omega (arith, ok.temp_input_size)), (tt, tt)),
    ),
  )

-- The SHA-1 digest: the blocks of the padded message absorbed one after the other.
abbrev pub sha1 : List ℕ → List ℕ
sha1 m = digest_of (absorb (length (padded m) / 64) initial (padded m))

pub length-sha1 : (m : List ℕ) → length (sha1 m) ≡ sha1_digestsize
unfolding digest_of word_bytes
length-sha1 m = refl

-- A fresh context stands for the empty message.
fresh-Holds : (stack : List ℕ) → length stack ≡ 64 → Holds (init stack) []
unfolding init
fresh-Holds stack e = record {
  blocks = 0;
  full = omega arith;
  rest = omega arith;
  hash = unfold absorb in refl;
  buffered = refl;
  room = e;
  low = refl;
  high = refl;
}

finish_final : (c : Sha1Ctx) (sum : List ℕ) → final c ≡ some sum → finish_digest (some c) ≡ ret sum
unfolding finish_digest digest_result
finish_final c sum e = ap digest_result e

-- Whatever was on the stack, the three calls give the digest.
pub digest-sha1 :
    (stack bytes : List ℕ)
    → length stack ≡ 64
    → length bytes < 2 ^ 32 - 128
    → digest stack bytes ≡ ret (sha1 bytes)
unfolding digest
digest-sha1 stack bytes room small =
    let (c, e, h) = update-Holds (init stack) [] bytes (fresh-Holds stack room) small in
    ap finish_digest e ∙ finish_final c (sha1 bytes) (final-digest c bytes h)
