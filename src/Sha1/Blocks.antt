-- ===== src/Sha1/Blocks.antt =====
-- The blocks of a message, and what the loop of `sha1_update` of src/fand/sha1.c absorbs.
use native.Mathlib.Nat.{zero-add, suc-add}
use amdgpu_fand.Base.{
  ℕ, zero, suc, ◌+◌, ◌-◌, ◌*◌, ◌≤◌, ◌<◌, ◌≡◌, refl, ap, ◌∙◌, arith, List, [], ◌∷◌, ◌++◌, lt→ltb,
  le→ltb, length, take, drop, length-drop, drop-drop, take_all,
}
use amdgpu_fand.Serialize.Bytes.{write_at}
use amdgpu_fand.Sha1.{Hash, transform, feed}

-- The hash of the first `n` blocks of a message.
unfoldable pub absorb : ℕ → Hash → List ℕ → Hash
absorb zero h m = h
absorb (suc n) h m = absorb n (transform h (take 64 m)) (drop 64 m)

pub take_within : (n : ℕ) (a b : List ℕ) → n ≤ length a → take n (a ++ b) ≡ take n a
take_within zero a b h = refl
take_within (suc n) [] b h = absurd (omega arith)
take_within (suc n) (x ∷ a) b h = ap (λ t. x ∷ t) (take_within n a b (omega arith))

pub drop_within : (n : ℕ) (a b : List ℕ) → n ≤ length a → drop n (a ++ b) ≡ drop n a ++ b
drop_within zero a b h = refl
drop_within (suc n) [] b h = absurd (omega arith)
drop_within (suc n) (x ∷ a) b h = drop_within n a b (omega arith)

-- What stands behind the first `q` blocks is absorbed after them.
pub absorb-add :
    (q k : ℕ) (h : Hash) (m : List ℕ)
    → absorb (q + k) h m ≡ absorb k (absorb q h m) (drop (64 * q) m)
unfolding absorb
absorb-add zero k h m = rw zero-add refl
absorb-add (suc q) k h m =
    let index : 64 * suc q ≡ 64 + 64 * q = omega arith in
    rw (suc-add, index)
      (absorb-add q k (transform h (take 64 m)) (drop 64 m)
        ∙ ap (λ t. absorb k (absorb q (transform h (take 64 m)) (drop 64 m)) t)
            (drop-drop (64 * q) 64 m))

pub absorb-append :
    (q : ℕ) (h : Hash) (m later : List ℕ)
    → 64 * q ≤ length m
    → absorb q h (m ++ later) ≡ absorb q h m
unfolding absorb
absorb-append zero h m later fits = refl
absorb-append (suc q) h m later fits =
    rw (take_within 64 m later (omega arith), drop_within 64 m later (omega arith))
      (absorb-append q (transform h (take 64 m)) (drop 64 m) later
        (omega (arith, length-drop 64 m)))

-- The loop absorbs the full blocks.
pub feed-absorb :
    (k fuel : ℕ) (h : Hash) (m : List ℕ)
    → k ≤ fuel
    → 64 * k ≤ length m
    → length m < 64 * k + 64
    → feed fuel h m ≡ (absorb k h m, drop (64 * k) m)
unfolding feed absorb
feed-absorb zero zero h m enough lo hi = refl
feed-absorb zero (suc fuel) h m enough lo hi = rw (feed, le→ltb 63 (length m) (omega arith)) refl
feed-absorb (suc k) zero h m enough lo hi = absurd (omega arith)
feed-absorb (suc k) (suc fuel) h m enough lo hi =
    let index : 64 + 64 * k ≡ 64 * suc k = omega arith in
    rw (feed, lt→ltb 63 (length m) (omega arith))
      (feed-absorb k fuel (transform h (take 64 m)) (drop 64 m) (omega arith)
          (omega (arith, length-drop 64 m)) (omega (arith, length-drop 64 m))
        ∙ ap (λ t. (absorb k (transform h (take 64 m)) (drop 64 m), t))
            (drop-drop (64 * k) 64 m ∙ ap (λ n. drop n m) index))

pub write_prefix :
    (buffer : List ℕ) (at : ℕ) (src : List ℕ)
    → at + length src ≤ length buffer
    → take (at + length src) (write_at buffer at src) ≡ take at buffer ++ src
unfolding write_at
write_prefix buffer zero src h =
    rw zero-add (take_within (length src) src _ (omega arith) ∙ take_all src (length src) refl)
write_prefix [] (suc at) src h = absurd (omega arith)
write_prefix (x ∷ buffer) (suc at) src h =
    rw suc-add (ap (λ t. x ∷ t) (write_prefix buffer at src (omega arith)))

pub take_over : (n : ℕ) (a b : List ℕ) → length a ≤ n → take n (a ++ b) ≡ a ++ take (n - length a) b
take_over n [] b h = let same : n - 0 ≡ n = omega arith in rw same refl
take_over zero (x ∷ a) b h = absurd (omega arith)
take_over (suc n) (x ∷ a) b h =
    let less : suc n - suc (length a) ≡ n - length a = omega arith in
    rw less (ap (λ t. x ∷ t) (take_over n a b (omega arith)))

pub drop_over : (n : ℕ) (a b : List ℕ) → length a ≤ n → drop n (a ++ b) ≡ drop (n - length a) b
drop_over n [] b h = let same : n - 0 ≡ n = omega arith in rw same refl
drop_over zero (x ∷ a) b h = absurd (omega arith)
drop_over (suc n) (x ∷ a) b h =
    let less : suc n - suc (length a) ≡ n - length a = omega arith in
    rw less (drop_over n a b (omega arith))
