-- ===== src/Hwmon/Paths.antt =====
-- The paths that src/fand/hwmon.c puts together.
use amdgpu_fand.Base.{
  ℕ, zero, suc, ◌+◌, ◌-◌, ◌<◌, ◌≤◌, ◌≡◌, refl, ◌∙◌, sym, subst, arith, List, [], ◌∷◌, ◌++◌,
  append_assoc, true, leb, length, length-append, length-drop, drop, ℤ, pos, ◌+ℤ◌, codes,
}
use amdgpu_fand.Serialize.Outcome.{ret, Ensures}
use amdgpu_fand.Strutils.{strscpy}
use amdgpu_fand.Strutils.Copy.{strscpy-copied}
use amdgpu_fand.Cache.{hwmon_path_size}
use amdgpu_fand.Cache.Fields.{take_exact, drop_exact}
use amdgpu_fand.Hwmon.{moved, add_filename, add_slash, init_single_sysfs_path}

-- A string that fits.
pub strscpy_fits :
    (dst src : List ℕ) (size : ℕ)
    → length src < size
    → size ≤ length dst
    → strscpy dst src size ≡ ret (pos (length src), src ++ (0 ∷ drop (suc (length src)) dst))
strscpy_fits dst src zero h wide = absurd (omega arith)
strscpy_fits dst src (suc n) h wide =
    let fits : leb (length src) n ≡ true = ground arith in
    strscpy-copied dst src n (omega arith) ∙ rw fits refl

sum_pos : (a b : ℕ) → pos a +ℤ pos b ≡ pos (a + b)
sum_pos a b = ground arith

module _ (front tail : List ℕ) (at : ℕ) (e : length front ≡ at) where
  add_filename-append :
      (filename : List ℕ)
      → length filename < hwmon_path_size - at
      → hwmon_path_size - at ≤ length tail
      → add_filename filename (pos at, front ++ tail)
        ≡ ret
            (pos (length filename), front ++ (filename ++ (0 ∷ drop (suc (length filename)) tail)))
  unfolding add_filename
  add_filename-append filename h wide =
      rw
        (
          drop_exact at front tail e,
          strscpy_fits tail filename (hwmon_path_size - at) h wide,
          take_exact at front tail e,
        )
        refl

  add_slash-append :
      (filename : List ℕ)
      → 1 < hwmon_path_size - at
      → hwmon_path_size - at ≤ length tail
      → add_slash filename (pos at, front ++ tail)
        ≡ add_filename filename (pos (at + 1), (front ++ (b'/' ∷ [])) ++ (0 ∷ drop 2 tail))
  unfolding add_slash moved
  add_slash-append filename h wide =
      rw
        (
          drop_exact at front tail e,
          strscpy_fits tail (codes "/") (hwmon_path_size - at) h wide,
          take_exact at front tail e,
          sum_pos at 1,
          append_assoc front (b'/' ∷ []) (0 ∷ drop 2 tail),
        )
        refl

-- The bytes behind the string in the array.
abbrev behind : List ℕ → List ℕ → List ℕ → List ℕ
behind dst dir filename =
    drop (suc (length filename)) (0 ∷ drop 2 (0 ∷ drop (suc (length dir)) dst))

-- The path of a file in a directory, and its NUL.
abbrev pub path_text : List ℕ → List ℕ → List ℕ → List ℕ
path_text dir filename rest = (dir ++ (b'/' ∷ [])) ++ (filename ++ (0 ∷ rest))

-- An array of 256 bytes that holds the path of a file in a directory.
pub record IsPath (dir filename dst : List ℕ) : Type 0 where
  pub rest : List ℕ
  pub text : dst ≡ path_text dir filename rest
  pub size : length dst ≡ hwmon_path_size

init_single_sysfs_path-text :
    (dst dir filename : List ℕ)
    → length dst ≡ hwmon_path_size
    → length dir + length filename + 1 < hwmon_path_size
    → init_single_sysfs_path dst dir filename
      ≡ ret (pos (length filename), path_text dir filename (behind dst dir filename))
unfolding init_single_sysfs_path
init_single_sysfs_path-text dst dir filename wide h =
    let len = length-drop (suc (length dir)) dst in
    let len2 = length-drop 2 (0 ∷ drop (suc (length dir)) dst) in
    let slash = length-append dir (b'/' ∷ []) in
    rw (strscpy_fits dst dir hwmon_path_size (omega arith) (omega (arith, wide))) (
      add_slash-append dir (0 ∷ drop (suc (length dir)) dst) (length dir) refl filename
        (omega arith) (omega (arith, len, wide))
      ∙ add_filename-append (dir ++ (b'/' ∷ [])) (0 ∷ drop 2 (0 ∷ drop (suc (length dir)) dst))
          (length dir + 1) slash filename (omega arith) (omega (arith, len, len2, wide)))

-- The result of a call that wrote the path.
abbrev pub IsWritten : List ℕ → List ℕ → ℤ × List ℕ → Type 0
IsWritten dir filename (n, dst) = (n ≡ pos (length filename)) × IsPath dir filename dst

length-path_text :
    (dst dir filename : List ℕ)
    → length dst ≡ hwmon_path_size
    → length dir + length filename + 1 < hwmon_path_size
    → length (path_text dir filename (behind dst dir filename)) ≡ hwmon_path_size
length-path_text dst dir filename wide h = omega (
  arith,
  length-append (dir ++ (b'/' ∷ [])) (filename ++ (0 ∷ behind dst dir filename)),
  length-append dir (b'/' ∷ []),
  length-append filename (0 ∷ behind dst dir filename),
  length-drop (suc (length filename)) (0 ∷ drop 2 (0 ∷ drop (suc (length dir)) dst)),
  length-drop 2 (0 ∷ drop (suc (length dir)) dst),
  length-drop (suc (length dir)) dst,
  wide,
)

-- Into an array of 256 bytes the path of a file in a directory is written whole, where it is short enough.
pub init_single_sysfs_path-IsWritten :
    (dst dir filename : List ℕ)
    → length dst ≡ hwmon_path_size
    → length dir + length filename + 1 < hwmon_path_size
    → Ensures (IsWritten dir filename) (init_single_sysfs_path dst dir filename)
init_single_sysfs_path-IsWritten dst dir filename wide h =
    subst (Ensures (IsWritten dir filename))
      (sym (init_single_sysfs_path-text dst dir filename wide h))
      (
        refl,
        record {
          rest = behind dst dir filename;
          text = refl;
          size = length-path_text dst dir filename wide h;
        },
      )
