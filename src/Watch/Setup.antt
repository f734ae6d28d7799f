-- ===== src/Watch/Setup.antt =====
-- `fsys_watch_init` of src/fand/filesystem.c.
use amdgpu_fand.Base.{
  ℕ, ◌≡◌, refl, arith, List, true, false, ◌||◌, ◌==◌, replicate, length-replicate, Option, none,
  some, ℤ, pos, negsuc, is_negative, Bool-cases, inl, inr,
}
use amdgpu_fand.Serialize.Outcome.{Ensures, >>=-Ensures}
use amdgpu_fand.Strutils.Room.{IsCopied, strscpy-IsCopied}
use amdgpu_fand.Watch.{
  InotifyWatch, Directory, path_max_length, failed, abspath, add_watch, watch_dir, watch_path,
  watch_init,
}

-- The watch is as it was, or it watches with the flags.
abbrev pub IsWatching : Directory → ℕ → InotifyWatch → ℤ × InotifyWatch → Type 0
IsWatching d flags before (status, watch) =
    (is_negative status ≡ true → watch ≡ before)
    × (is_negative status ≡ false
        → watch ≡ record { fd = d.inotify; wd = d.added; flags = flags; triggered = false })

module _ (d : Directory) (flags : ℕ) (watch : InotifyWatch) where
  add_watch-IsWatching : IsWatching d flags watch (add_watch d flags watch)
  unfolding add_watch
  add_watch-IsWatching = elim (Bool-cases (failed d.inotify || failed d.added)) [
    | inl e ↦ rw e ((λ h. refl), (λ h. cc))
    | inr e ↦ rw e ((λ h. cc), (λ h. refl))
  ]

  watch_dir-IsWatching : (r : ℤ × List ℕ) → IsWatching d flags watch (watch_dir d flags watch r)
  unfolding watch_dir
  watch_dir-IsWatching (negsuc n, path) = ((λ h. refl), (λ h. cc))
  watch_dir-IsWatching (pos n, path) = elim (Bool-cases (d.is_dir path)) [
    | inl e ↦ rw e add_watch-IsWatching
    | inr e ↦ rw e ((λ h. refl), (λ h. cc))
  ]

  watch_path-IsWatching :
      (path : Option (List ℕ)) → IsWatching d flags watch (watch_path d flags watch path)
  unfolding watch_path
  watch_path-IsWatching none = ((λ h. refl), (λ h. cc))
  watch_path-IsWatching (some path) = watch_dir-IsWatching _

abspath_defined :
    (resolved : Option (List ℕ)) → Ensures (λ path. Unit {0}) (abspath path_max_length resolved)
unfolding abspath
abspath_defined none = tt
abspath_defined (some path) =
    >>=-Ensures (IsCopied path_max_length) (λ path. Unit {0}) _ _
      (strscpy-IsCopied (replicate path_max_length 0) path path_max_length (omega arith)
        (length-replicate {A = ℕ} path_max_length 0))
      (λ r c. tt)

-- Whatever the system answers, `fsys_watch_init` stays inside its buffer; where it fails the watch is left as it was,
-- else it has the descriptors that inotify gave and the flags asked for, and is not triggered.
pub watch_init-IsWatching :
    (d : Directory) (watch : InotifyWatch) (flags : ℕ)
    → Ensures (IsWatching d flags watch) (watch_init d watch flags)
unfolding watch_init
watch_init-IsWatching d watch flags = elim (Bool-cases (d.stat == 0)) [
  | inl e ↦ rw e (
      >>=-Ensures (λ path. Unit {0}) (IsWatching d flags watch) _ _ (abspath_defined d.realpath)
        (λ path u. watch_path-IsWatching d flags watch path))
  | inr e ↦ rw e ((λ h. refl), (λ h. cc))
]
