-- ===== src/Config/Text.antt =====
-- The text of a matrix that `config_set_matrix` of src/fand/config.c reads, and what is asked of the C library on it.
use amdgpu_fand.Base.{
  ℕ, zero, suc, ◌+◌, ◌-◌, ◌<◌, ◌≤◌, ◌≡◌, ◌≢◌, ◌⊎◌, refl, ap, ◌∙◌, arith, List, [], ◌∷◌, ◌++◌, ◌==◌,
  false, ltb, drop, length, length-append, All, replicate, take-append, some, c_string, le→ltb,
  ne→==,
}
use amdgpu_fand.Serialize.Outcome.{ret}
use amdgpu_fand.Strutils.Copy.{strsncpy-copied_n}
use amdgpu_fand.Strutils.Range.{strstoul_range-IsNumber}
use amdgpu_fand.Config.CLibrary.{
  CLibrary, Matcher, regmatch_length, strchr, left_string, copy_group,
}
use amdgpu_fand.Config.Setting.{uchar_max}
use amdgpu_fand.Config.Matrix.{numbuf_size, accepted, number_of, read_part}

abbrev pub IsDigit : ℕ → Type 0
IsDigit c = (b'0' ≤ c) × (c ≤ b'9')

-- A row as it is written, and its numbers.
pub record TextRow : Type 0 where
  pub temp_text : List ℕ
  pub speed_text : List ℕ
  pub temp : ℕ
  pub speed : ℕ

-- One to three digits that `strtoul` reads as a number up to `high`.
pub record IsNumeral (lib : CLibrary) (text : List ℕ) (high v : ℕ) : Type 0 where
  pub digits : All IsDigit text
  pub some_digit : text ≢ []
  pub short : length text < numbuf_size
  pub read : lib.strtoul text ≡ (v, [])
  pub in_range : v ≤ high

abbrev pub IsTextRow : CLibrary → TextRow → Type 0
IsTextRow lib r =
    IsNumeral lib r.temp_text uchar_max r.temp × IsNumeral lib r.speed_text 100 r.speed

-- `'temp::speed'`, and what follows it.
unfoldable pub row_text : List ℕ → List ℕ → List ℕ → List ℕ
row_text t s rest = b'\'' ∷ (t ++ (b':' ∷ b':' ∷ (s ++ (b'\'' ∷ rest))))

unfoldable pub text_from : List TextRow → List ℕ
text_from [] = b')' ∷ []
text_from (r ∷ rows) = b';' ∷ row_text r.temp_text r.speed_text (text_from rows)

-- `('temp::speed';...;'temp::speed')`
unfoldable pub matrix_text : TextRow → List TextRow → List ℕ
matrix_text r rows = b'(' ∷ row_text r.temp_text r.speed_text (text_from rows)

-- `regexec` finds a row at the start of a text, with the groups around its two numbers, where a row starts there
-- and a `;` or a `)` follows it.
abbrev pub FindsRow : Matcher → Type 0
FindsRow regex =
    (c c' : ℕ) (t s rest : List ℕ)
    → (c ≡ b'(') ⊎ (c ≡ b';')
    → (c' ≡ b')') ⊎ (c' ≡ b';')
    → All IsDigit t
    → All IsDigit s
    → t ≢ []
    → s ≢ []
    → regex (c ∷ row_text t s (c' ∷ rest))
      ≡ some ((2, length t + 2) ∷ (length t + 4, length s + (length t + 4)) ∷ [])

c_string_digits : (t rest : List ℕ) → All IsDigit t → c_string (t ++ (zero ∷ rest)) ≡ t
unfolding c_string
c_string_digits [] rest d = refl
c_string_digits (zero ∷ t) rest (d, ds) = absurd (omega arith)
c_string_digits (suc c ∷ t) rest (d, ds) = ap (λ u. suc c ∷ u) (c_string_digits t rest ds)

-- No separator stands among digits.
strchr_digits : (t rest : List ℕ) → All IsDigit t → strchr (t ++ rest) b';' ≡ strchr rest b';'
unfolding strchr
strchr_digits [] rest d = refl
strchr_digits (c ∷ t) rest (d, ds) =
    let other : (c == b';') ≡ false = ne→== c b';' (λ e. absurd (omega arith)) in
    rw other (strchr_digits t rest ds)

-- The next row is found behind the numbers of this one.
pub strchr-row_text :
    (t s rest : List ℕ)
    → All IsDigit t
    → All IsDigit s
    → strchr (row_text t s rest) b';' ≡ strchr rest b';'
unfolding row_text strchr
strchr-row_text t s rest dt ds =
    strchr_digits t (b':' ∷ b':' ∷ (s ++ (b'\'' ∷ rest))) dt ∙ strchr_digits s (b'\'' ∷ rest) ds

copy_group_digits :
    (src t rest : List ℕ) (so : ℕ)
    → drop so src ≡ t ++ rest
    → All IsDigit t
    → length t < numbuf_size
    → copy_group numbuf_size src (so, length t + so) ≡ ret (some t)
unfolding copy_group regmatch_length left_string
copy_group_digits src t rest so e d short =
    let copied =
      strsncpy-copied_n (replicate numbuf_size 0) (t ++ rest) numbuf_size (length t) short
        (omega arith) in
    let long : ltb (length (t ++ rest)) (length t) ≡ false =
      le→ltb _ _ (omega (arith, length-append t rest)) in
    let len : length t + so - so ≡ length t = omega arith in
    rw
      (
        e,
        len,
        copied,
        long,
        take-append t rest,
        c_string_digits t (drop (suc (length t)) (replicate numbuf_size 0)) d,
      )
      refl

-- Digits in a group are read as their number.
pub read_part-IsNumeral :
    (lib : CLibrary) (src t rest : List ℕ) (so high v : ℕ)
    → drop so src ≡ t ++ rest
    → IsNumeral lib t high v
    → read_part lib src (so, length t + so) high ≡ ret (some v)
unfolding read_part number_of accepted
read_part-IsNumeral lib src t rest so high v e num =
    rw
      (
        copy_group_digits src t rest so e num.digits num.short,
        (strstoul_range-IsNumber lib.strtoul t 0 high v).1
            (num.some_digit, num.read, omega arith, num.in_range),
      )
      refl
