-- ===== src/FileUtil/Listing.antt =====
-- `FileUtil::listDirectory` on a POSIX file system.
use mathlib.Core.List.{Memᴰ}
use secure_storage.Base.{
  ◌≡◌, ◌↔◌, refl, ◌⊎◌, inl, inr, Bool, true, false, ◌&&◌, ◌||◌, not, Option, none, some, List, [],
  ◌∷◌, ◌++◌, arith, Bool-cases, Option-cases,
}
use secure_storage.Base.Text.{
  c_str, IsPlain, Str, Bytes, codes, str_eq, str_eq_iff, is_slash, back_is-append, empty,
}
use secure_storage.Error.{success}
use secure_storage.Os.{Os}
use secure_storage.Os.Posix.{IsPosix, IsBase, slashed, IsName, Node, file, folder, device, kind?}
use secure_storage.FileUtil.{entry_path, regular_files, list_directory, is_regular}

-- A path leads to a regular file.
abbrev pub IsFile : Option Node → Type 0
IsFile n = (bytes : Bytes) × (n ≡ some (file bytes))

is_regular_iff : (n : Option Node) → (is_regular (kind? n) ≡ true) ↔ IsFile n
is_regular_iff none = (λ h. cc, λ h. absurd (cc (h.1)))
is_regular_iff (some (file bytes)) = (λ h. (bytes, refl), λ h. refl)
is_regular_iff (some folder) = (λ h. cc, λ h. absurd (cc (h.1)))
is_regular_iff (some device) = (λ h. cc, λ h. absurd (cc (h.1)))

nonempty : (d : Str) → empty (d ++ b'/' ∷ []) ≡ false
nonempty [] = refl
nonempty (c ∷ d) = refl

entry_path-base : (d name : Str) → IsBase d → entry_path d name ≡ d ++ name
unfolding entry_path
entry_path-base _ name (slashed d _) = ground (arith, nonempty d, back_is-append is_slash d [] b'/')

Memᴰ-cons_inv {ℓ} : {A : Type ℓ} {a b : A} {l : List A} → Memᴰ a (b ∷ l) → (a ≡ b) ⊎ Memᴰ a l
Memᴰ-cons_inv (Memᴰ.head e) = inl e
Memᴰ-cons_inv (Memᴰ.tail m) = inr m

-- The test of the loop over the entries.
abbrev is_link : Str → Bool
is_link name = str_eq name (codes ".") || str_eq name (codes "..")

is_link-name : (name : Str) → IsName name → is_link name ≡ false
is_link-name name n =
    ground (arith, n.not_dot, n.not_dots, str_eq_iff name (codes "."), str_eq_iff name (codes ".."))

module _ (os : Os) (P : IsPosix os) (w : os.World) (base : Str) (is_base : IsBase base) where
  stat_entry :
      (name : Str)
      → (is_regular (os.stat w (c_str (entry_path base name))) ≡ true)
        ↔ IsFile (P.node w (base ++ name))
  stat_entry name =
      rw (entry_path-base base name is_base, P.stat_lem) (is_regular_iff (P.node w (base ++ name)))

  abbrev kept : Str → Bool
  kept name = not (is_link name) && is_regular (os.stat w (c_str (entry_path base name)))

  regular_files-keep :
      (f : Str) (names : List Str)
      → kept f ≡ true
      → regular_files os base (f ∷ names) w ≡ f ∷ regular_files os base names w
  unfolding regular_files
  regular_files-keep f names h = ground arith

  regular_files-drop :
      (f : Str) (names : List Str)
      → kept f ≡ false
      → regular_files os base (f ∷ names) w ≡ regular_files os base names w
  unfolding regular_files
  regular_files-drop f names h = ground arith

  abbrev Listed : Str → List Str → Type 0
  Listed name names = Memᴰ name names × IsFile (P.node w (base ++ name))

  regular_files-Listed :
      (name : Str) (names : List Str)
      → Memᴰ name (regular_files os base names w)
      → Listed name names
  unfolding regular_files
  regular_files-Listed name [] m = elim m [ ]
  regular_files-Listed name (f ∷ names) m = elim (Bool-cases (kept f)) [
    | inr e ↦
        let (m', n) = regular_files-Listed name names (rw (regular_files-drop f names e) at m) in
        (Memᴰ.tail m', n)
    | inl e ↦
        let m' : Memᴰ name (f ∷ regular_files os base names w) =
          rw (regular_files-keep f names e) at m in
        elim (Memᴰ-cons_inv m') [
          | inl same ↦ (Memᴰ.head same, (stat_entry name).0 (rw same (ground (arith))))
          | inr rest ↦ let (m'', n) = regular_files-Listed name names rest in (Memᴰ.tail m'', n)
        ]
  ]

  Listed-regular_files :
      (name : Str) (names : List Str)
      → IsName name
      → IsFile (P.node w (base ++ name))
      → Memᴰ name names
      → Memᴰ name (regular_files os base names w)
  Listed-regular_files name [] n i m = elim m [ ]
  Listed-regular_files name (f ∷ names) n i (Memᴰ.head e) =
      let keep : kept f ≡ true = rw (← e, is_link-name name n, (stat_entry name).1 i) refl in
      rw (regular_files-keep f names keep) (Memᴰ.head e)
  Listed-regular_files name (f ∷ names) n i (Memᴰ.tail m) = elim (Bool-cases (kept f)) [
    | inl e ↦ rw (regular_files-keep f names e) (Memᴰ.tail (Listed-regular_files name names n i m))
    | inr e ↦ rw (regular_files-drop f names e) (Listed-regular_files name names n i m)
  ]

  list_directory-names :
      (files : List Str)
      → list_directory os base w ≡ (success, files)
      → (names : List Str) × (os.read_directory w (c_str base) ≡ some names)
        × (files ≡ regular_files os base names w)
  unfolding list_directory
  list_directory-names files h = elim (Option-cases (os.read_directory w (c_str base))) [
    | inl e ↦ ground arith
    | inr (names, e) ↦ (names, e, ground arith)
  ]

  -- For a directory whose path has no NUL byte and ends in a slash: if `listDirectory` reports
  -- success, a name in its output has no NUL byte and is that of a regular file in the directory,
  -- and if `readdir` came to the end of the directory with no error, every file name that is
  -- neither of the two links and is that of a regular file is in the output.
  pub list_directory_iff :
      (files : List Str) (name : Str)
      → list_directory os base w ≡ (success, files)
      → (Memᴰ name files → IsFile (P.node w (base ++ name)) × IsPlain name)
        × (P.reads_all w base ≡ true
            → IsName name
            → IsFile (P.node w (base ++ name))
            → Memᴰ name files)
  list_directory_iff files name h =
      let (names, e, same) = list_directory-names files h in
      rw same (
        λ m.
            let (there, n) = regular_files-Listed name names m in
            (n, P.entries_plain w base names e name there),
        λ all n i.
            Listed-regular_files name names n i
              (P.entries_of w base names is_base all e name n (λ k. cc (k, i.1))),
      )
