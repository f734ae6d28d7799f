-- ===== src/Serialize/Bytes.antt =====
-- Memory as src/common/serialize.c copies it: little-endian integers, and memcpy into a buffer.
use amdgpu_fand.Base.{
  ℕ, zero, suc, ◌+◌, ◌*◌, ◌/◌, ◌%◌, ◌^◌, ◌≤◌, ◌<◌, ◌≡◌, refl, ap, arith, List, [], ◌∷◌, ◌++◌,
  length, drop, length-append, length-drop, append_assoc, drop-drop,
}
use native.Mathlib.Nat.{zero-add, suc-add, pow-suc}

-- The `n` low bytes of a value, the lowest first.
unfoldable pub le_bytes : ℕ → ℕ → List ℕ
le_bytes zero v = []
le_bytes (suc n) v = v % 256 ∷ le_bytes n (v / 256)

unfoldable pub from_le : List ℕ → ℕ
from_le [] = 0
from_le (b ∷ bs) = b + 256 * from_le bs

pub length-le_bytes : (n v : ℕ) → length (le_bytes n v) ≡ n
unfolding le_bytes
length-le_bytes zero v = refl
length-le_bytes (suc n) v = ap suc (length-le_bytes n (v / 256))

pub from_le-le_bytes : (n v : ℕ) → v < 256 ^ n → from_le (le_bytes n v) ≡ v
unfolding le_bytes from_le
from_le-le_bytes zero v h = omega arith
from_le-le_bytes (suc n) v h =
    omega (arith, from_le-le_bytes n (v / 256) (omega (arith, pow-suc 256 n)))

-- memcpy(&buffer[at], src, length src), inside the buffer.
unfoldable pub write_at : List ℕ → ℕ → List ℕ → List ℕ
write_at buffer zero src = src ++ drop (length src) buffer
write_at [] (suc at) src = []
write_at (x ∷ buffer) (suc at) src = x ∷ write_at buffer at src

pub length-write_at :
    (buffer : List ℕ) (at : ℕ) (src : List ℕ)
    → at + length src ≤ length buffer
    → length (write_at buffer at src) ≡ length buffer
unfolding write_at
length-write_at buffer zero src h =
    omega (arith, length-append src (drop (length src) buffer), length-drop (length src) buffer)
length-write_at [] (suc at) src h = absurd (omega arith)
length-write_at (x ∷ buffer) (suc at) src h = ap suc (length-write_at buffer at src (omega arith))

pub write_at-nil : (buffer : List ℕ) (at : ℕ) → write_at buffer at [] ≡ buffer
unfolding write_at
write_at-nil buffer zero = refl
write_at-nil [] (suc at) = refl
write_at-nil (x ∷ buffer) (suc at) = ap (λ t. x ∷ t) (write_at-nil buffer at)

write_at_end :
    (a rest b : List ℕ) → write_at (a ++ rest) (length a) b ≡ a ++ (b ++ drop (length b) rest)
unfolding write_at
write_at_end [] rest b = refl
write_at_end (x ∷ a) rest b = ap (λ t. x ∷ t) (write_at_end a rest b)

-- Two copies in a row are one copy.
pub write_at-append :
    (buffer : List ℕ) (at : ℕ) (a b : List ℕ)
    → write_at (write_at buffer at a) (at + length a) b ≡ write_at buffer at (a ++ b)
unfolding write_at
write_at-append buffer zero a b =
    rw (zero-add, write_at_end a (drop (length a) buffer) b, drop-drop, length-append, append_assoc)
write_at-append [] (suc at) a b = rw suc-add
write_at-append (x ∷ buffer) (suc at) a b =
    rw suc-add (ap (λ t. x ∷ t) (write_at-append buffer at a b))
