-- ===== src/FileUtil/Paths.antt =====
-- `FileUtil::getDirectory`.
use secure_storage.Base.{
  ◌≡◌, ◌≢◌, refl, false, none, some, [], ◌∷◌, ◌++◌, arith, if◌then◌else◌, length, take-append,
}
use secure_storage.Base.Text.{IsPlain, Str, empty, has_char, find_last, is_separator}
use secure_storage.Error.{success}
use secure_storage.Os.{Os}
use secure_storage.Os.Posix.{IsPosix, IsName, folder}
use secure_storage.FileUtil.{get_directory, ensure_directory, path_exists}

-- A text with no slash and no backslash.
abbrev pub NoSeparator : Str → Type 0
NoSeparator s = (has_char b'/' s ≡ false) × (has_char 0x5c s ≡ false)

find_last-none : (s : Str) → NoSeparator s → find_last is_separator s ≡ none
unfolding find_last has_char
find_last-none [] h = refl
find_last-none (c ∷ s) h = rw (find_last-none s (ground arith), find_last) (ground arith)

find_last-join :
    (d name : Str) → NoSeparator name → find_last is_separator (d ++ b'/' ∷ name) ≡ some (length d)
unfolding find_last
find_last-join [] name h = rw (find_last-none name h, find_last) refl
find_last-join (c ∷ d) name h = rw (find_last-join d name h, find_last) refl

-- `getDirectory` of a directory, a slash and a name without a slash or a backslash is the
-- directory, or the slash if the directory is empty.
pub get_directory-join :
    (d name : Str)
    → NoSeparator name
    → get_directory (d ++ b'/' ∷ name) ≡ (if empty d then b'/' ∷ [] else d)
unfolding get_directory
get_directory-join [] name h = rw (find_last-join [] name h, get_directory) refl
get_directory-join (c ∷ d) name h =
    rw (find_last-join (c ∷ d) name h, get_directory)
      (ground (arith, take-append (length (c ∷ d)) (c ∷ d) (b'/' ∷ name) refl))

-- A path without a separator has no directory part.
pub get_directory-none : (name : Str) → NoSeparator name → get_directory name ≡ []
unfolding get_directory
get_directory-none name h = rw (find_last-none name h, get_directory) refl

module _ (os : Os) (P : IsPosix os) (w : os.World) where
  pub ensure_directory-folder :
      (p : Str) → P.node w p ≡ some folder → ensure_directory os p w ≡ (success, w)
  unfolding ensure_directory path_exists
  ensure_directory-folder [] h = refl
  ensure_directory-folder (c ∷ p) h = ground (arith, P.stat_lem w (c ∷ p))

  -- Below a directory that holds something, `atomicWriteFile` has no directory to create.
  pub ensure_directory-present :
      (d present name : Str)
      → IsPlain d
      → IsName present
      → P.node w (d ++ b'/' ∷ present) ≢ none
      → NoSeparator name
      → ensure_directory os (get_directory (d ++ b'/' ∷ name)) w ≡ (success, w)
  ensure_directory-present [] present name z i h n =
      rw (get_directory-join [] name n) (ensure_directory-folder _ (P.parent w [] present z i h).0)
  ensure_directory-present (c ∷ d) present name z i h n =
      rw (get_directory-join (c ∷ d) name n)
        (ensure_directory-folder _ ((P.parent w (c ∷ d) present z i h).1 (λ e. cc)))
