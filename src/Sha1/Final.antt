-- ===== src/Sha1/Final.antt =====
-- `sha1_final` of src/fand/sha1.c: the digest of the padded message.
use amdgpu_fand.Base.{
  ℕ, zero, suc, ◌+◌, ◌-◌, ◌*◌, ◌/◌, ◌%◌, ◌^◌, ◌<◌, ◌≡◌, refl, ap, ◌∙◌, arith, List, [], ◌∷◌, ◌++◌,
  false, ◌==◌, ne→==, length, replicate, length-replicate, length-append, append_assoc, append-nil,
  some,
}
use amdgpu_fand.Sha1.{Sha1Ctx, initial, word_bytes, pad, digest_of, final}
use amdgpu_fand.Sha1.Blocks.{absorb}
use amdgpu_fand.Sha1.Stream.{Holds, update-Holds}

-- The buffer's count of bytes.
held_index : (c : Sha1Ctx) (m : List ℕ) → Holds c m → c.n0 / 8 % 64 ≡ length m % 64
held_index c m h = omega (arith, h.low)

pad-Holds :
    (fuel z : ℕ) (c : Sha1Ctx) (m : List ℕ)
    → Holds c m
    → z < fuel
    → z < 64
    → (length m + z) % 64 ≡ 56
    → (c' : Sha1Ctx) × (pad fuel c ≡ some c') × Holds c' (m ++ replicate z 0)
unfolding pad
pad-Holds zero z c m h enough small at = absurd (omega arith)
pad-Holds (suc fuel) zero c m h enough small at =
    let index : c.n0 / 8 % 64 ≡ 56 = omega (arith, held_index c m h) in
    (c, rw (pad, index) refl, rw append-nil h)
pad-Holds (suc fuel) (suc z) c m h enough small at =
    let other : (c.n0 / 8 % 64 == 56) ≡ false = ne→== _ _ (omega (arith, held_index c m h)) in
    let (c1, e1, h1) = update-Holds c m (0 ∷ []) h (omega arith) in
    let (c2, e2, h2) =
      pad-Holds fuel z c1 (m ++ (0 ∷ [])) h1 (omega arith) (omega arith)
        (omega (arith, length-append m (0 ∷ []))) in
    (c2, rw (pad, other, e1) e2, rw append_assoc at h2)

-- The padding of a message: a bit 1, zeros up to 8 bytes before the end of a block, and the count of bits.
abbrev pub padded : List ℕ → List ℕ
padded m =
    ((m ++ (0x80 ∷ [])) ++ replicate ((119 - length m % 64) % 64) 0)
    ++ (word_bytes (8 * length m / 2 ^ 32 % 2 ^ 32) ++ word_bytes (8 * length m % 2 ^ 32))

whole_blocks :
    (c : Sha1Ctx) (m : List ℕ)
    → Holds c m
    → length m % 64 ≡ 0
    → c.hash ≡ absorb (length m / 64) initial m
whole_blocks c m h e =
    let count : h.blocks ≡ length m / 64 = omega (arith, h.full, h.rest) in
    h.hash ∙ ap (λ n. absorb n initial m) count

-- From a context that stands for a message `sha1_final` gives the digest of the padded message: its blocks absorbed
-- one after the other.
pub final-digest :
    (c : Sha1Ctx) (m : List ℕ)
    → Holds c m
    → final c ≡ some (digest_of (absorb (length (padded m) / 64) initial (padded m)))
unfolding final word_bytes
final-digest c m h =
    let zeros = (119 - length m % 64) % 64 in
    let (c1, e1, h1) = update-Holds c m (0x80 ∷ []) h (omega arith) in
    let len1 = length-append m (0x80 ∷ []) in
    let (c2, e2, h2) =
      pad-Holds 65 zeros c1 (m ++ (0x80 ∷ [])) h1 (omega arith) (omega arith)
        (omega (arith, len1)) in
    let bits = word_bytes c.n1 ++ word_bytes c.n0 in
    let same : bits
        ≡ word_bytes (8 * length m / 2 ^ 32 % 2 ^ 32) ++ word_bytes (8 * length m % 2 ^ 32) =
      rw (h.high, h.low) refl in
    let (c3, e3, h3) =
      update-Holds c2 ((m ++ (0x80 ∷ [])) ++ replicate zeros 0) bits h2 (omega arith) in
    let h3' : Holds c3 (padded m) = rw same at h3 in
    let len2 = length-append (m ++ (0x80 ∷ [])) (replicate zeros 0) in
    let len3 =
      length-append ((m ++ (0x80 ∷ [])) ++ replicate zeros 0)
        (word_bytes (8 * length m / 2 ^ 32 % 2 ^ 32) ++ word_bytes (8 * length m % 2 ^ 32)) in
    let whole : length (padded m) % 64 ≡ 0 =
      omega (arith, len1, len2, len3, length-replicate {A = ℕ} zeros 0) in
    rw (e1, e2, e3) (ap (λ g. some (digest_of g)) (whole_blocks c3 (padded m) h3' whole))
