-- ===== src/Serialize/Fields.antt =====
-- A format string and its arguments as a list of fields, and what `packf` and `unpackf` of
-- src/common/serialize.c do with them.
pub mod Packing
pub mod Unpacking
use amdgpu_fand.Base.{
  ℕ, zero, suc, ◌+◌, ◌*◌, ◌%◌, ◌^◌, ◌≤◌, ◌<◌, ◌≡◌, refl, arith, List, [], ◌∷◌, ◌++◌, length, ◌≢◌,
  drop, take, All, length-take, ℤ, pos,
}
use amdgpu_fand.Serialize.Dfa.{dfa_valsize, dfa_fmtlen}
use amdgpu_fand.Serialize.Conversion.{
  Conversion, hhd, hd, d, ld, lld, hhu, hu, u, lu, llu, fmt_code, chars, size,
}
use amdgpu_fand.Serialize.Bytes.{le_bytes}
use amdgpu_fand.Serialize.Pack.{Arg, val, ptr}
use amdgpu_fand.Serialize.Unpack.{Dest, count, room}

-- One value, or an array of `n` elements with its bytes.
pub data Field : Type 0 where
  one : Conversion → ℕ → Field
  many : Conversion → ℕ → List ℕ → Field

-- An array has two elements at least, since a count of 1 makes `packf` take a value; more bytes than its
-- elements need may stand behind the pointer.
abbrev pub IsField : Field → Type 0
IsField (one t v) = Unit {0}
IsField (many t n bytes) = (1 < n) × (n * size t < 2 ^ 32) × (n * size t ≤ length bytes)

unfoldable pub format : List Field → List ℕ
format [] = []
format (one t v ∷ fields) = b'%' ∷ (chars t ++ format fields)
format (many t n bytes ∷ fields) = b'%' ∷ b'*' ∷ (chars t ++ format fields)

unfoldable pub pack_args : List Field → List Arg
pack_args [] = []
pack_args (one t v ∷ fields) = val v ∷ pack_args fields
pack_args (many t n bytes ∷ fields) = val n ∷ ptr bytes ∷ pack_args fields

-- Destinations that have room for the fields.
pub data Reads : List Field → List Dest → Type 0 where
  reads_nil : Reads [] []
  reads_one :
      {fields : List Field} {dests : List Dest} (t : Conversion) (v r : ℕ)
      → size t ≤ r
      → Reads fields dests
      → Reads (one t v ∷ fields) (room r ∷ dests)
  reads_many :
      {fields : List Field} {dests : List Dest} (t : Conversion) (n r : ℕ) (bytes : List ℕ)
      → n * size t ≤ r
      → Reads fields dests
      → Reads (many t n bytes ∷ fields) (count n ∷ room r ∷ dests)

-- The bytes of a field: a value little-endian at the size of its type, the elements of an array.
unfoldable pub field_bytes : Field → List ℕ
field_bytes (one t v) = le_bytes (size t) v
field_bytes (many t n bytes) = take (n * size t) bytes

unfoldable pub encode : List Field → List ℕ
encode [] = []
encode (field ∷ fields) = field_bytes field ++ encode fields

pub length-field_bytes_many :
    (t : Conversion) (n : ℕ) (bytes : List ℕ)
    → n * size t ≤ length bytes
    → length (field_bytes (many t n bytes)) ≡ n * size t
unfolding field_bytes
length-field_bytes_many t n bytes h = omega (arith, length-take (n * size t) bytes)

pub fmtlen_chars :
    (t : Conversion) (rest : List ℕ) → drop (dfa_fmtlen (fmt_code t)) (chars t ++ rest) ≡ rest
unfolding dfa_fmtlen
fmtlen_chars hhd rest = refl
fmtlen_chars hd rest = refl
fmtlen_chars d rest = refl
fmtlen_chars ld rest = refl
fmtlen_chars lld rest = refl
fmtlen_chars hhu rest = refl
fmtlen_chars hu rest = refl
fmtlen_chars u rest = refl
fmtlen_chars lu rest = refl
fmtlen_chars llu rest = refl

pub valsize_code : (t : Conversion) → (dfa_valsize (fmt_code t) ≡ size t)
unfolding dfa_valsize
valsize_code hhd = refl
valsize_code hd = refl
valsize_code d = refl
valsize_code ld = refl
valsize_code lld = refl
valsize_code hhu = refl
valsize_code hu = refl
valsize_code u = refl
valsize_code lu = refl
valsize_code llu = refl

pub code_max : (t : Conversion) → fmt_code t ≤ 9
code_max hhd = omega arith
code_max hd = omega arith
code_max d = omega arith
code_max ld = omega arith
code_max lld = omega arith
code_max hhu = omega arith
code_max hu = omega arith
code_max u = omega arith
code_max lu = omega arith
code_max llu = omega arith

pub size_bounds : (t : Conversion) → (1 ≤ size t) × (size t ≤ 8)
size_bounds hhd = omega arith
size_bounds hd = omega arith
size_bounds d = omega arith
size_bounds ld = omega arith
size_bounds lld = omega arith
size_bounds hhu = omega arith
size_bounds hu = omega arith
size_bounds u = omega arith
size_bounds lu = omega arith
size_bounds llu = omega arith

-- No conversion begins with `*`.
pub data NoStar : List ℕ → Type 0 where
  no_star : (c : ℕ) (rest : List ℕ) → c ≢ b'*' → NoStar (c ∷ rest)

pub chars-NoStar : (t : Conversion) (rest : List ℕ) → NoStar (chars t ++ rest)
chars-NoStar hhd rest = no_star _ _ (omega arith)
chars-NoStar hd rest = no_star _ _ (omega arith)
chars-NoStar d rest = no_star _ _ (omega arith)
chars-NoStar ld rest = no_star _ _ (omega arith)
chars-NoStar lld rest = no_star _ _ (omega arith)
chars-NoStar hhu rest = no_star _ _ (omega arith)
chars-NoStar hu rest = no_star _ _ (omega arith)
chars-NoStar u rest = no_star _ _ (omega arith)
chars-NoStar lu rest = no_star _ _ (omega arith)
chars-NoStar llu rest = no_star _ _ (omega arith)
