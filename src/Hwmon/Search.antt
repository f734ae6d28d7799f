-- ===== src/Hwmon/Search.antt =====
-- The search for the device in src/fand/hwmon.c.
use amdgpu_fand.Base.{
  ℕ, zero, suc, ◌+◌, ◌-◌, ◌<◌, ◌≤◌, ◌≡◌, refl, ap, ◌∙◌, arith, List, [], ◌∷◌, ◌++◌, All, Bool, true,
  false, ltb, ◌==◌, length, length-replicate, replicate, drop, Bool-cases, inl, inr, le→ltb, some,
  ℤ, pos, negsuc, codes, c_string,
}
use amdgpu_fand.Serialize.Outcome.{Outcome, ret, ◌>>=◌, Ensures, >>=-Ensures}
use amdgpu_fand.Watch.{abspath, whole_path}
use amdgpu_fand.Watch.Events.{IsChar}
use amdgpu_fand.Cache.{FandCache, hwmon_path_size}
use amdgpu_fand.Hwmon.{
  hwmon_path, Sysfs, max_dri_dir_idx, find_card, detect_card_index, find_entry, resolved, follow,
  follow_entry, search_dir, detect_iface_dir, set_pwm_enable, set_pwm, set_temp_input, set_paths,
  set_paths_of, set_sysfs_paths,
}
use amdgpu_fand.Hwmon.Paths.{strscpy_fits, IsPath, IsWritten, init_single_sysfs_path-IsWritten}

-- A device of the system: the lowest card with its file, the first entry that matches, and where it leads.
pub record IsDevice (s : Sysfs) (regex : List ℕ → Bool) (card : ℕ) (before : List (List ℕ))
    (name : List ℕ) (after : List (List ℕ)) (dir : List ℕ) : Type 0 where
  pub has_card : s.has_card card ≡ true
  pub lowest : (i : ℕ) → i < card → s.has_card i ≡ false
  pub low : card < max_dri_dir_idx
  pub compiled : s.regex ≡ some regex
  pub names : s.names ≡ before ++ (name ∷ after)
  pub others : All (λ (n : List ℕ). regex n ≡ false) before
  pub matches : regex name ≡ true
  pub name_chars : All IsChar name
  pub dir_chars : All IsChar dir
  pub name_fits : length (hwmon_path s card) + length name < hwmon_path_size
  pub leads : s.realpath (hwmon_path s card ++ name) ≡ some dir
  pub dir_fits : length dir + 12 < hwmon_path_size

find_card_first :
    (has_card : ℕ → Bool) (card left i : ℕ)
    → has_card card ≡ true
    → ((j : ℕ) → j < card → has_card j ≡ false)
    → i ≤ card
    → card < i + left
    → find_card has_card left i ≡ pos card
unfolding find_card
find_card_first has_card card zero i there lowest lo hi = absurd (omega arith)
find_card_first has_card card (suc left) i there lowest lo hi = elim (Bool-cases (i == card)) [
  | inl same ↦ let e : i ≡ card = ground arith in rw (e, there) refl
  | inr apart ↦
      rw (lowest i (ground arith))
        (find_card_first has_card card left (i + 1) there lowest (ground arith) (omega arith))
]

find_entry_first :
    (regex : List ℕ → Bool) (before : List (List ℕ)) (name : List ℕ) (after : List (List ℕ))
    → All (λ (n : List ℕ). regex n ≡ false) before
    → regex name ≡ true
    → find_entry regex (before ++ (name ∷ after)) ≡ some name
unfolding find_entry
find_entry_first regex [] name after others e = rw e refl
find_entry_first regex (n ∷ before) name after (other, others) e =
    rw other (find_entry_first regex before name after others e)

c_string_chars : (s rest : List ℕ) → All IsChar s → c_string (s ++ (zero ∷ rest)) ≡ s
unfolding c_string
c_string_chars [] rest chars = refl
c_string_chars (zero ∷ s) rest (c, chars) = absurd (omega arith)
c_string_chars (suc x ∷ s) rest (c, chars) = ap (λ t. suc x ∷ t) (c_string_chars s rest chars)

abspath-some :
    (dir : List ℕ)
    → All IsChar dir
    → length dir < hwmon_path_size
    → abspath hwmon_path_size (some dir) ≡ ret (some dir)
unfolding abspath whole_path
abspath-some dir chars h =
    rw
      (
        strscpy_fits (replicate hwmon_path_size 0) dir hwmon_path_size h (omega arith),
        c_string_chars dir (drop (suc (length dir)) (replicate hwmon_path_size 0)) chars,
      )
      refl

module _ (s : Sysfs) (regex : List ℕ → Bool) (card : ℕ) (before : List (List ℕ)) (name : List ℕ)
    (after : List (List ℕ)) (dir : List ℕ)
    (device : IsDevice s regex card before name after dir) where
  follow_device :
      (dst tail : List ℕ) (n : ℕ)
      → c_string tail ≡ name
      → follow s dst (hwmon_path s card) (pos n, tail) ≡ ret (pos (length dir), dir)
  unfolding follow resolved
  follow_device dst tail n e =
      rw (e, device.leads, abspath-some dir device.dir_chars (omega (arith, device.dir_fits))) refl

  follow_entry_device :
      (dst : List ℕ)
      → follow_entry s dst (hwmon_path s card) (some name) ≡ ret (pos (length dir), dir)
  unfolding follow_entry
  follow_entry_device dst =
      let left = hwmon_path_size - length (hwmon_path s card) in
      ap (λ (o : Outcome (ℤ × List ℕ)). o >>= follow s dst (hwmon_path s card))
        (strscpy_fits (replicate left 0) name left (omega (arith, device.name_fits))
          (omega (arith, length-replicate {A = ℕ} left 0)))
      ∙ follow_device dst (name ++ (0 ∷ drop (suc (length name)) (replicate left 0))) (length name)
          (c_string_chars name (drop (suc (length name)) (replicate left 0)) device.name_chars)

  search_device :
      (dst : List ℕ) → search_dir s dst (hwmon_path s card) s.regex ≡ ret (pos (length dir), dir)
  unfolding search_dir
  search_device dst =
      ap (search_dir s dst (hwmon_path s card)) device.compiled
      ∙ ap
          (λ (names : List (List ℕ)).
            follow_entry s dst (hwmon_path s card) (find_entry regex names))
          device.names
      ∙ ap (follow_entry s dst (hwmon_path s card))
          (find_entry_first regex before name after device.others device.matches)
      ∙ follow_entry_device dst

  detect_device : (dst : List ℕ) → detect_iface_dir s dst card ≡ ret (pos (length dir), dir)
  unfolding detect_iface_dir
  detect_device dst =
      let fits : ltb hwmon_path_size (length (hwmon_path s card)) ≡ false =
        le→ltb _ _ (omega (arith, device.name_fits)) in
      rw fits (search_device dst)

  detect_card : detect_card_index s ≡ pos card
  unfolding detect_card_index
  detect_card =
      find_card_first s.has_card card max_dri_dir_idx 0 device.has_card device.lowest (omega arith)
        (omega (arith, device.low))

-- The index and the three paths.
pub record IsLocated (card : ℕ) (dir : List ℕ) (r : ℤ × FandCache) : Type 0 where
  pub status : r.0 ≡ pos 11
  pub card_idx : r.1.card_idx ≡ card
  pub temp_input : IsPath dir (codes "temp1_input") r.1.temp_input
  pub pwm : IsPath dir (codes "pwm1") r.1.pwm
  pub pwm_enable : IsPath dir (codes "pwm1_enable") r.1.pwm_enable

-- Arrays of 256 bytes.
pub record HasRoom (cache : FandCache) : Type 0 where
  pub temp_input : length cache.temp_input ≡ hwmon_path_size
  pub pwm : length cache.pwm ≡ hwmon_path_size
  pub pwm_enable : length cache.pwm_enable ≡ hwmon_path_size

module _ (card : ℕ) (dir : List ℕ) (fits : length dir + 12 < hwmon_path_size) where
  set_pwm-IsLocated :
      (cache : FandCache) (r : ℤ × List ℕ)
      → HasRoom cache
      → cache.card_idx ≡ card
      → IsPath dir (codes "temp1_input") cache.temp_input
      → IsWritten dir (codes "pwm1") r
      → Ensures (IsLocated card dir) (set_pwm dir cache r)
  unfolding set_pwm set_pwm_enable
  set_pwm-IsLocated cache (negsuc n, path) ok idx temp (e, written) = absurd (cc)
  set_pwm-IsLocated cache (pos n, path) ok idx temp (e, written) =
      >>=-Ensures (IsWritten dir (codes "pwm1_enable")) (IsLocated card dir) _ _
        (init_single_sysfs_path-IsWritten cache.pwm_enable dir (codes "pwm1_enable") ok.pwm_enable
          (omega arith))
        (λ (status, enable) (e', written'). record {
          status = e';
          card_idx = idx;
          temp_input = temp;
          pwm = written;
          pwm_enable = written';
        })

  set_temp_input-IsLocated :
      (cache : FandCache) (r : ℤ × List ℕ)
      → HasRoom cache
      → cache.card_idx ≡ card
      → IsWritten dir (codes "temp1_input") r
      → Ensures (IsLocated card dir) (set_temp_input dir cache r)
  unfolding set_temp_input
  set_temp_input-IsLocated cache (negsuc n, path) ok idx (e, written) = absurd (cc)
  set_temp_input-IsLocated cache (pos n, path) ok idx (e, written) =
      >>=-Ensures (IsWritten dir (codes "pwm1")) (IsLocated card dir) _ _
        (init_single_sysfs_path-IsWritten cache.pwm dir (codes "pwm1") ok.pwm (omega arith))
        (λ r written'.
          set_pwm-IsLocated (record cache { temp_input = path }) r
            (record { temp_input = written.size; pwm = ok.pwm; pwm_enable = ok.pwm_enable }) idx
            written written')

  set_paths-IsLocated :
      (cache : FandCache) (n : ℕ)
      → HasRoom cache
      → cache.card_idx ≡ card
      → Ensures (IsLocated card dir) (set_paths cache (pos n, dir))
  unfolding set_paths
  set_paths-IsLocated cache n ok idx =
      >>=-Ensures (IsWritten dir (codes "temp1_input")) (IsLocated card dir) _ _
        (init_single_sysfs_path-IsWritten cache.temp_input dir (codes "temp1_input") ok.temp_input
          (omega arith))
        (λ r written. set_temp_input-IsLocated cache r ok idx written)

-- Where the system has a device, whose directory has a path of at most 243 characters, `hwmon_set_sysfs_paths`
-- stays inside its buffers and finds it: it stores the lowest card index with a debug file, and in arrays of 256
-- bytes the paths of the temperature, of the PWM value and of its mode in the directory that the first matching
-- entry leads to, each ended by a NUL.
pub set_sysfs_paths-IsLocated :
    (s : Sysfs) (regex : List ℕ → Bool) (card : ℕ) (before : List (List ℕ)) (name : List ℕ)
    (after : List (List ℕ)) (dir stack : List ℕ) (cache : FandCache)
    → IsDevice s regex card before name after dir
    → HasRoom cache
    → Ensures (IsLocated card dir) (set_sysfs_paths s stack cache)
unfolding set_sysfs_paths set_paths_of
set_sysfs_paths-IsLocated s regex card before name after dir stack cache device ok =
    rw
      (
        detect_card s regex card before name after dir device,
        detect_device s regex card before name after dir device stack,
      )
      (set_paths-IsLocated card dir device.dir_fits (record cache { card_idx = card }) (length dir)
        (record { temp_input = ok.temp_input; pwm = ok.pwm; pwm_enable = ok.pwm_enable }) refl)
