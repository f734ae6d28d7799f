-- ===== src/Cache/Unpacking.antt =====
-- What `cache_unpack` of src/fand/cache.c reads of the bytes of a cache.
use amdgpu_fand.Base.{
  ℕ, ◌≡◌, refl, ap, sym, ◌∙◌, subst, arith, List, [], ◌∷◌, ◌++◌, append-nil, append_assoc, All,
  Bool, true, false, length, length-append, take, drop, take_all, drop-drop, set, codes, pos,
  le→ltb,
}
use mathlib.Core.List.{map}
use amdgpu_fand.Serialize.Outcome.{ret}
use amdgpu_fand.Serialize.Bytes.{le_bytes, from_le, length-le_bytes, from_le-le_bytes}
use amdgpu_fand.Serialize.Conversion.{hhu, u}
use amdgpu_fand.Serialize.Unpack.{count, room, unpackf}
use amdgpu_fand.Serialize.Fields.{
  Field, one, many, IsField, format, field_bytes, encode, Reads, reads_nil, reads_one, reads_many,
}
use amdgpu_fand.Serialize.Fields.Unpacking.{unpackf-encode}
use amdgpu_fand.Cache.{
  hwmon_path_size, sha1_digestsize, cache_size, FandCache, terminated, copied_cache, stored_cache,
  cache_unpack,
}
use amdgpu_fand.Cache.Fields.{IsCache, path_bytes, take_exact, drop_exact, length-path_bytes}

abbrev all_fields : FandCache → List ℕ → List Field
all_fields cache sum =
    many hhu hwmon_path_size cache.pwm
    ∷ many hhu hwmon_path_size cache.pwm_enable
    ∷ many hhu hwmon_path_size cache.temp_input
    ∷ one u cache.card_idx
    ∷ many hhu sha1_digestsize sum
    ∷ []

module _ (cache : FandCache) (ok : IsCache cache) (sum : List ℕ)
    (len : length sum ≡ sha1_digestsize) where
  -- The fields one behind the other.
  abbrev joined : List ℕ
  joined =
      cache.pwm ++ (cache.pwm_enable ++ (cache.temp_input ++ (le_bytes 4 cache.card_idx ++ sum)))

  bytes_joined : path_bytes cache ++ sum ≡ joined
  bytes_joined =
      rw
        (
          append_assoc cache.pwm
              (cache.pwm_enable ++ (cache.temp_input ++ (le_bytes 4 cache.card_idx ++ []))) sum,
          append_assoc cache.pwm_enable (cache.temp_input ++ (le_bytes 4 cache.card_idx ++ [])) sum,
          append_assoc cache.temp_input (le_bytes 4 cache.card_idx ++ []) sum,
          append-nil (le_bytes 4 cache.card_idx),
        )
        refl

  behind_pwm :
      drop 256 joined ≡ cache.pwm_enable ++ (cache.temp_input ++ (le_bytes 4 cache.card_idx ++ sum))
  behind_pwm = drop_exact 256 cache.pwm _ ok.pwm_size

  behind_pwm_enable : drop 512 joined ≡ cache.temp_input ++ (le_bytes 4 cache.card_idx ++ sum)
  behind_pwm_enable =
      sym (drop-drop 256 256 joined)
      ∙ ap (λ (b : List ℕ). drop 256 b) behind_pwm
      ∙ drop_exact 256 cache.pwm_enable _ ok.pwm_enable_size

  behind_temp_input : drop 768 joined ≡ le_bytes 4 cache.card_idx ++ sum
  behind_temp_input =
      sym (drop-drop 256 512 joined)
      ∙ ap (λ (b : List ℕ). drop 256 b) behind_pwm_enable
      ∙ drop_exact 256 cache.temp_input _ ok.temp_input_size

  behind_card_idx : drop 772 joined ≡ sum
  behind_card_idx =
      sym (drop-drop 4 768 joined)
      ∙ ap (λ (b : List ℕ). drop 4 b) behind_temp_input
      ∙ drop_exact 4 (le_bytes 4 cache.card_idx) sum (length-le_bytes 4 cache.card_idx)

  pwm_back : set (take 256 joined) 255 0 ≡ cache.pwm
  pwm_back = ap (λ (b : List ℕ). set b 255 0) (take_exact 256 cache.pwm _ ok.pwm_size) ∙ ok.pwm_end

  pwm_enable_back : set (take 256 (drop 256 joined)) 255 0 ≡ cache.pwm_enable
  pwm_enable_back =
      ap (λ (b : List ℕ). set (take 256 b) 255 0) behind_pwm
      ∙ ap (λ (b : List ℕ). set b 255 0) (take_exact 256 cache.pwm_enable _ ok.pwm_enable_size)
      ∙ ok.pwm_enable_end

  temp_input_back : set (take 256 (drop 512 joined)) 255 0 ≡ cache.temp_input
  temp_input_back =
      ap (λ (b : List ℕ). set (take 256 b) 255 0) behind_pwm_enable
      ∙ ap (λ (b : List ℕ). set b 255 0) (take_exact 256 cache.temp_input _ ok.temp_input_size)
      ∙ ok.temp_input_end

  card_idx_back : from_le (take 4 (drop 768 joined)) ≡ cache.card_idx
  card_idx_back =
      ap (λ (b : List ℕ). from_le (take 4 b)) behind_temp_input
      ∙ ap from_le (take_exact 4 (le_bytes 4 cache.card_idx) sum (length-le_bytes 4 cache.card_idx))
      ∙ from_le-le_bytes 4 cache.card_idx ok.card_fits

  checksum_back : take 20 (drop 772 joined) ≡ sum
  checksum_back = ap (λ (b : List ℕ). take 20 b) behind_card_idx ∙ take_all sum 20 len

  -- memcpy puts each field in its place.
  copied_cache-joined : terminated (copied_cache joined) ≡ record cache { checksum = sum }
  unfolding terminated copied_cache
  copied_cache-joined = λ i. record {
    pwm = pwm_back i;
    pwm_enable = pwm_enable_back i;
    temp_input = temp_input_back i;
    card_idx = card_idx_back i;
    checksum = checksum_back i;
  }

  length-joined : length joined ≡ cache_size
  length-joined =
      sym (ap length bytes_joined)
      ∙ length-append (path_bytes cache) sum
      ∙ omega (arith, length-path_bytes cache ok, len)

  encode-all_fields : encode (all_fields cache sum) ++ [] ≡ joined
  unfolding encode field_bytes
  encode-all_fields =
      rw
        (
          take_all cache.pwm hwmon_path_size ok.pwm_size,
          take_all cache.pwm_enable hwmon_path_size ok.pwm_enable_size,
          take_all cache.temp_input hwmon_path_size ok.temp_input_size,
          take_all sum sha1_digestsize len,
          append-nil sum,
        )
        (append-nil joined)

  all_fields-IsField : All IsField (all_fields cache sum)
  all_fields-IsField = (
    (omega arith, omega arith, omega (arith, ok.pwm_size)),
    (
      (omega arith, omega arith, omega (arith, ok.pwm_enable_size)),
      (
        (omega arith, omega arith, omega (arith, ok.temp_input_size)),
        (tt, ((omega arith, omega arith, omega (arith, len)), tt)),
      ),
    ),
  )

  all_fields-Reads : Reads (all_fields cache sum) (
      count hwmon_path_size
      ∷ room hwmon_path_size
      ∷ count hwmon_path_size
      ∷ room hwmon_path_size
      ∷ count hwmon_path_size
      ∷ room hwmon_path_size
      ∷ room 4
      ∷ count sha1_digestsize
      ∷ room sha1_digestsize
      ∷ [])
  all_fields-Reads = reads_many hhu 256 256 cache.pwm (omega arith) (
      reads_many hhu 256 256 cache.pwm_enable (omega arith) (
        reads_many hhu 256 256 cache.temp_input (omega arith) (
          reads_one u cache.card_idx 4 (omega arith)
            (reads_many hhu 20 20 sum (omega arith) reads_nil))))

  length-all_fields : length (encode (all_fields cache sum)) ≡ cache_size
  length-all_fields =
      sym (ap length (append-nil (encode (all_fields cache sum))))
      ∙ ap length encode-all_fields
      ∙ length-joined

  unpacks_fields :
      unpackf joined cache_size (codes "%*hhu%*hhu%*hhu%u%*hhu") (
        count hwmon_path_size
        ∷ room hwmon_path_size
        ∷ count hwmon_path_size
        ∷ room hwmon_path_size
        ∷ count hwmon_path_size
        ∷ room hwmon_path_size
        ∷ room 4
        ∷ count sha1_digestsize
        ∷ room sha1_digestsize
        ∷ [])
      ≡ ret (pos cache_size, map field_bytes (all_fields cache sum))
  unfolding format
  unpacks_fields =
      subst
        (λ (b : List ℕ).
          unpackf b cache_size (format (all_fields cache sum)) (
            count hwmon_path_size
            ∷ room hwmon_path_size
            ∷ count hwmon_path_size
            ∷ room hwmon_path_size
            ∷ count hwmon_path_size
            ∷ room hwmon_path_size
            ∷ room 4
            ∷ count sha1_digestsize
            ∷ room sha1_digestsize
            ∷ [])
          ≡ ret (
            pos (length (encode (all_fields cache sum))),
            map field_bytes (all_fields cache sum),
          ))
        encode-all_fields
        (unpackf-encode cache_size [] all_fields-Reads all_fields-IsField
          (omega (arith, length-all_fields))
          (omega (arith, ap length encode-all_fields, length-joined)))
      ∙ ap (λ (n : ℕ). ret (pos n, map field_bytes (all_fields cache sum))) length-all_fields

  stored_cache-fields :
      (old : FandCache)
      → terminated (stored_cache old (map field_bytes (all_fields cache sum)))
        ≡ record cache { checksum = sum }
  unfolding terminated stored_cache field_bytes
  stored_cache-fields old = λ i. record {
    pwm = (ap (λ (b : List ℕ). set b 255 0) (take_all cache.pwm 256 ok.pwm_size) ∙ ok.pwm_end) i;
    pwm_enable =
        (ap (λ (b : List ℕ). set b 255 0) (take_all cache.pwm_enable 256 ok.pwm_enable_size)
            ∙ ok.pwm_enable_end)
          i;
    temp_input =
        (ap (λ (b : List ℕ). set b 255 0) (take_all cache.temp_input 256 ok.temp_input_size)
            ∙ ok.temp_input_end)
          i;
    card_idx = from_le-le_bytes 4 cache.card_idx ok.card_fits i;
    checksum = take_all sum 20 len i;
  }

  -- Both ways of reading give the fields that were written.
  pub cache_unpack-bytes :
      (is_padded : Bool) (old : FandCache)
      → cache_unpack is_padded (path_bytes cache ++ sum) cache_size old
        ≡ ret (pos cache_size, record cache { checksum = sum })
  unfolding cache_unpack
  cache_unpack-bytes true old =
      rw (bytes_joined, unpacks_fields)
        (ap (λ (c : FandCache). ret (pos cache_size, c)) (stored_cache-fields old))
  cache_unpack-bytes false old =
      rw (bytes_joined, le→ltb (length joined) cache_size (omega (arith, length-joined)))
        (ap (λ (c : FandCache). ret (pos cache_size, c)) copied_cache-joined)
