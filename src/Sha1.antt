-- ===== src/Sha1.antt =====
-- src/fand/sha1.c on a little-endian machine: `sha1_init`, `sha1_update`, `sha1_final`. Words are numbers below
-- 2 ^ 32, a block is the list of its 16 words.
pub mod Blocks
pub mod Stream
pub mod Final
mod Tests
use Prim.Native.Nat.{bit_and, bit_or, bit_xor}
use amdgpu_fand.Base.{
  ℕ, zero, suc, ◌+◌, ◌-◌, ◌*◌, ◌/◌, ◌%◌, ◌^◌, List, [], ◌∷◌, ◌++◌, Bool, true, false, ◌==◌, ltb,
  if◌then◌else◌, length, take, drop, get_or, set, Option, none, some, ◌>>=◌, replicate,
}
use amdgpu_fand.Serialize.Bytes.{write_at}

unfoldable pub rol : ℕ → ℕ → ℕ
rol value bits = bit_or (value / 2 ^ (32 - bits)) (value * 2 ^ bits % 2 ^ 32)

-- The five words that the arguments of a round name, in the order `v`, `w`, `x`, `y`, `z`; the next round
-- names them one place further. `block` is `as_dwords`.
pub record Round : Type 0 where
  pub v : ℕ
  pub w : ℕ
  pub x : ℕ
  pub y : ℕ
  pub z : ℕ
  pub block : List ℕ

-- `expand`: the new word.
unfoldable pub expand : List ℕ → ℕ → ℕ
expand block i =
    rol
      (bit_xor
        (bit_xor (bit_xor (get_or block ((i + 13) % 16) 0) (get_or block ((i + 8) % 16) 0))
          (get_or block ((i + 2) % 16) 0))
        (get_or block (i % 16) 0))
      1

unfoldable pub htonl : ℕ → ℕ
htonl n = n % 256 * 2 ^ 24 + n / 2 ^ 8 % 256 * 2 ^ 16 + n / 2 ^ 16 % 256 * 2 ^ 8 + n / 2 ^ 24 % 256

-- A round that adds `mix`, the word `word` and the constant `k` to `z`; `block` is the block afterwards.
unfoldable pub turn : Round → ℕ → ℕ → ℕ → List ℕ → Round
turn r mix word k block = record {
  v = (r.z + mix + word + k + rol r.v 5) % 2 ^ 32;
  w = r.v;
  x = rol r.w 30;
  y = r.x;
  z = r.y;
  block = block;
}

unfoldable pub choose : Round → ℕ
choose r = bit_xor (bit_and r.w (bit_xor r.x r.y)) r.y

unfoldable pub parity : Round → ℕ
parity r = bit_xor (bit_xor r.w r.x) r.y

unfoldable pub majority : Round → ℕ
majority r = bit_or (bit_and (bit_or r.w r.x) r.y) (bit_and r.w r.x)

unfoldable pub r0 : Round → ℕ → Round
r0 r i =
    let word = htonl (get_or r.block i 0) in turn r (choose r) word 0x5a827999 (set r.block i word)

-- The rounds with `expand`.
unfoldable pub expanded : Round → ℕ → ℕ → ℕ → Round
expanded r i mix k = let word = expand r.block i in turn r mix word k (set r.block (i % 16) word)

unfoldable pub r1 : Round → ℕ → Round
r1 r i = expanded r i (choose r) 0x5a827999

unfoldable pub r2 : Round → ℕ → Round
r2 r i = expanded r i (parity r) 0x6ed9eba1

unfoldable pub r3 : Round → ℕ → Round
r3 r i = expanded r i (majority r) 0x8f1bbcdc

unfoldable pub r4 : Round → ℕ → Round
r4 r i = expanded r i (parity r) 0xca62c1d6

-- The call with the number `i`.
unfoldable pub round : Round → ℕ → Round
round r i =
    if ltb i 16
    then r0 r i
    else if ltb i 20
    then r1 r i
    else if ltb i 40
    then r2 r i
    else if ltb i 60
    then r3 r i
    else r4 r i

-- The calls from `i` on, `left` of them.
unfoldable pub rounds : ℕ → ℕ → Round → Round
rounds zero i r = r
rounds (suc left) i r = rounds left (i + 1) (round r i)

pub record Hash : Type 0 where
  pub h0 : ℕ
  pub h1 : ℕ
  pub h2 : ℕ
  pub h3 : ℕ
  pub h4 : ℕ

-- The words of `bytes` as the machine reads them.
unfoldable pub as_dwords : ℕ → List ℕ → List ℕ
as_dwords zero bytes = []
as_dwords (suc n) bytes =
    (get_or bytes 0 0
      + get_or bytes 1 0 * 2 ^ 8
      + get_or bytes 2 0 * 2 ^ 16
      + get_or bytes 3 0 * 2 ^ 24)
    ∷ as_dwords n (drop 4 bytes)

-- The end of `sha1_transform`: after 80 rounds the names are back in place.
unfoldable pub add_round : Hash → Round → Hash
add_round h r = record {
  h0 = (h.h0 + r.v) % 2 ^ 32;
  h1 = (h.h1 + r.w) % 2 ^ 32;
  h2 = (h.h2 + r.x) % 2 ^ 32;
  h3 = (h.h3 + r.y) % 2 ^ 32;
  h4 = (h.h4 + r.z) % 2 ^ 32;
}

unfoldable pub transform : Hash → List ℕ → Hash
transform h buffer = add_round h (
    rounds 80 0
      (record { v = h.h0; w = h.h1; x = h.h2; y = h.h3; z = h.h4; block = as_dwords 16 buffer }))

-- `sha1_ctx`.
pub record Sha1Ctx : Type 0 where
  pub hash : Hash
  pub n0 : ℕ
  pub n1 : ℕ
  pub buffer : List ℕ

abbrev pub initial : Hash
initial = record {
  h0 = 0x67452301;
  h1 = 0xefcdab89;
  h2 = 0x98badcfe;
  h3 = 0x10325476;
  h4 = 0xc3d2e1f0;
}

-- `sha1_init`, which leaves the buffer alone.
unfoldable pub init : List ℕ → Sha1Ctx
init buffer = record { hash = initial; n0 = 0; n1 = 0; buffer = buffer }

-- The loop over the full blocks of the bytes from `data[j]` on: the hash, and the bytes left. `fuel` bounds the rounds.
unfoldable pub feed : ℕ → Hash → List ℕ → Hash × List ℕ
feed zero h input = (h, input)
feed (suc fuel) h input = elim (ltb 63 (length input)) [
  | true ↦ feed fuel (transform h (take 64 input)) (drop 64 input)
  | false ↦ (h, input)
]

-- The first lines: the count of bits.
unfoldable pub counted : Sha1Ctx → ℕ → Sha1Ctx
counted c len =
    let n0 = (c.n0 + len * 8 % 2 ^ 32) % 2 ^ 32 in
    let carry = (if ltb n0 c.n0 then 1 else 0) in
    record c { n0 = n0; n1 = (c.n1 + carry + len / 2 ^ 29) % 2 ^ 32 }

-- The last memcpy.
unfoldable pub keep_rest : Sha1Ctx → List ℕ → Hash × List ℕ → Sha1Ctx
keep_rest c buffer (h, rest) = record c { hash = h; buffer = write_at buffer 0 rest }

-- The branch with a full block, for a buffer that holds `i` bytes.
unfoldable pub fill : Sha1Ctx → ℕ → List ℕ → Sha1Ctx
fill c i input =
    let buffer = write_at c.buffer i (take (64 - i) input) in
    keep_rest c buffer (feed (length input) (transform c.hash buffer) (drop (64 - i) input))

-- `sha1_update`. From 2 ^ 32 - 128 bytes on its sums of lengths can wrap around, and it writes past the buffer or
-- reads past the data.
unfoldable pub update : Sha1Ctx → List ℕ → Option Sha1Ctx
update c input =
    let i = c.n0 / 8 % 64 in
    if ltb (length input) (2 ^ 32 - 128)
    then (if ltb (i + length input) 64
        then some (record (counted c (length input)) { buffer = write_at c.buffer i input })
        else some (fill (counted c (length input)) i input))
    else none

-- `sha1_compute_final` and `sha1_compute_digest_byte` take the bytes of a word from the top.
unfoldable pub word_bytes : ℕ → List ℕ
word_bytes n = n / 2 ^ 24 % 256 ∷ n / 2 ^ 16 % 256 ∷ n / 2 ^ 8 % 256 ∷ n % 256 ∷ []

-- The loop that pads with zeros; a block has 64 bytes, so that 64 rounds are enough.
unfoldable pub pad : ℕ → Sha1Ctx → Option Sha1Ctx
pad zero c = none
pad (suc fuel) c = elim (c.n0 / 8 % 64 == 56) [
  | true ↦ some c
  | false ↦ (update c (0 ∷ []) >>= λ c'. pad fuel c')
]

unfoldable pub digest_of : Hash → List ℕ
digest_of h =
    word_bytes h.h0 ++ word_bytes h.h1 ++ word_bytes h.h2 ++ word_bytes h.h3 ++ word_bytes h.h4

-- `sha1_final`.
unfoldable pub final : Sha1Ctx → Option (List ℕ)
final c = do
  marked ← update c (0x80 ∷ [])
  padded ← pad 65 marked
  done ← update padded (word_bytes c.n1 ++ word_bytes c.n0)
  some (digest_of done.hash)
