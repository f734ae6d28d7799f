-- ===== src/Cache/Packing.antt =====
-- What `cache_pack` of src/fand/cache.c writes.
use amdgpu_fand.Base.{
  ℕ, ◌≡◌, refl, ap, sym, ◌∙◌, arith, List, [], ◌∷◌, ◌++◌, append-nil, length, drop, take_all,
  length-drop, codes, pos,
}
use amdgpu_fand.Serialize.Outcome.{ret, ◌>>=◌}
use amdgpu_fand.Serialize.Conversion.{hhu}
use amdgpu_fand.Serialize.Pack.{Packed, packf, val, ptr}
use amdgpu_fand.Serialize.Fields.{Field, many, format, pack_args, field_bytes, encode}
use amdgpu_fand.Serialize.Fields.Packing.{packf-encode}
use amdgpu_fand.Cache.{
  hwmon_path_size, sha1_digestsize, cache_size, FandCache, pack_digest, add_digest, cache_pack,
}
use amdgpu_fand.Cache.Fields.{
  IsCache, path_fields, path_bytes, take_exact, drop_exact, encode-path_fields, length-path_bytes,
  path_fields-IsField, sha1, length-sha1, digest-sha1,
}

-- The bytes of the file.
abbrev pub cache_bytes : FandCache → List ℕ
cache_bytes cache = path_bytes cache ++ sha1 (path_bytes cache)

-- What is read back: the checksum is the digest.
abbrev pub with_checksum : FandCache → FandCache
with_checksum cache = record cache { checksum = sha1 (path_bytes cache) }

abbrev digest_fields : List ℕ → List Field
digest_fields sum = many hhu sha1_digestsize sum ∷ []

module _ (cache : FandCache) (ok : IsCache cache) where
  packs_paths :
      (buffer : List ℕ)
      → length buffer ≡ cache_size
      → packf buffer cache_size (codes "%*hhu%*hhu%*hhu%u") (
          val hwmon_path_size
          ∷ ptr cache.pwm
          ∷ val hwmon_path_size
          ∷ ptr cache.pwm_enable
          ∷ val hwmon_path_size
          ∷ ptr cache.temp_input
          ∷ val cache.card_idx
          ∷ [])
        ≡ ret (pos 772, path_bytes cache ++ drop 772 buffer)
  unfolding format pack_args
  packs_paths buffer wide =
      let len = length-path_bytes cache ok in
      let same = ap length (encode-path_fields cache ok) in
      packf-encode (path_fields cache) cache_size buffer (path_fields-IsField cache ok)
        (omega (arith, len, same)) (omega (arith, wide))
      ∙ ap (λ (b : List ℕ). ret (pos (length b), b ++ drop (length b) buffer))
          (encode-path_fields cache ok)
      ∙ ap (λ (n : ℕ). ret (pos n, path_bytes cache ++ drop n buffer)) len

encode-digest_fields :
    (sum : List ℕ) → length sum ≡ sha1_digestsize → encode (digest_fields sum) ≡ sum
unfolding encode field_bytes
encode-digest_fields sum e = rw (take_all sum sha1_digestsize e) (append-nil sum)

-- The digest fills the rest of the buffer.
packs_digest :
    (rest sum : List ℕ)
    → length sum ≡ sha1_digestsize
    → length rest ≡ sha1_digestsize
    → packf rest sha1_digestsize (codes "%*hhu") (val sha1_digestsize ∷ ptr sum ∷ [])
      ≡ ret (pos sha1_digestsize, sum)
unfolding format pack_args
packs_digest rest sum e wide =
    let same = encode-digest_fields sum e in
    let len = ap length same in
    packf-encode (digest_fields sum) sha1_digestsize rest
      ((omega arith, omega arith, omega (arith, e)), tt) (omega (arith, len, e))
      (omega (arith, wide))
    ∙ ap (λ (b : List ℕ). ret (pos (length b), b ++ drop (length b) rest)) same
    ∙ ap (λ (n : ℕ). ret (pos n, sum ++ drop n rest)) e
    ∙ ap (λ (b : List ℕ). ret (pos sha1_digestsize, sum ++ b)) (drop_none rest wide)
    ∙ ap (λ (b : List ℕ). ret (pos sha1_digestsize, b)) (append-nil sum)
  where
    drop_none : (rest : List ℕ) → length rest ≡ sha1_digestsize → drop sha1_digestsize rest ≡ []
    drop_none rest wide =
        ap (λ (b : List ℕ). drop sha1_digestsize b) (sym (append-nil rest))
        ∙ drop_exact sha1_digestsize rest [] wide

-- The second half of the call.
adds_digest :
    (bytes rest stack : List ℕ)
    → length bytes ≡ 772
    → length rest ≡ sha1_digestsize
    → length stack ≡ 64
    → add_digest stack cache_size (pos 772, bytes ++ rest)
      ≡ ret (pos cache_size, bytes ++ sha1 bytes)
unfolding add_digest pack_digest
adds_digest bytes rest stack e wide fresh =
    rw
      (
        take_exact 772 bytes rest e,
        digest-sha1 stack bytes fresh (omega (arith, e)),
        drop_exact 772 bytes rest e,
        packs_digest rest (sha1 bytes) (length-sha1 bytes) wide,
        take_exact 772 bytes rest e,
      )
      refl

-- Of a cache whose paths fill their arrays `cache_pack` writes the paths, the index and the SHA-1 digest of them, 792
-- bytes in all, whatever is on the stack.
pub cache_pack-cache_bytes :
    (cache : FandCache) (stack buffer : List ℕ)
    → IsCache cache
    → length stack ≡ 64
    → length buffer ≡ cache_size
    → cache_pack cache stack buffer cache_size ≡ ret (pos cache_size, cache_bytes cache)
unfolding cache_pack
cache_pack-cache_bytes cache stack buffer ok fresh wide =
    ap (λ (p : Packed). p >>= add_digest stack cache_size) (packs_paths cache ok buffer wide)
    ∙ adds_digest (path_bytes cache) (drop 772 buffer) stack (length-path_bytes cache ok)
        (omega (arith, length-drop 772 buffer, wide)) fresh
