-- ===== src/FileUtil/Atomic.antt =====
-- `FileUtil::atomicWriteFile`: all or nothing for the target, and nothing else changes.
use secure_storage.Base.{
  ◌<◌, ◌≡◌, ◌≢◌, refl, sym, ap, ◌∙◌, ◌⊎◌, inl, inr, false, none, some, [], ◌∷◌, ◌++◌, arith,
  append_assoc, length, length-append, Bool-cases,
}
use secure_storage.Base.Text.{
  c_str, append-IsPlain, IsPlain, Str, Bytes, empty, has_char, has_char-append,
}
use secure_storage.Error.{Errc, success, is_success, is_success_iff, is_success-success}
use secure_storage.Os.{Os}
use secure_storage.Os.Posix.{IsPosix, Apart, IsBase, slashed, IsName, file, device, contents?}
use secure_storage.FileUtil.{
  temp_file_util_suffix, get_directory, ensure_directory, write_temporary, write_and_rename,
  atomic_write_file,
}
use secure_storage.FileUtil.Temporary.{
  write_temporary_others, write_temporary-success, commit_temporary_others, commit_temporary-failed,
  commit_temporary-success, commit_temporary-same,
}
use secure_storage.FileUtil.Directories.{Adds, ensure_directory-Adds}

not-success : (e : Errc) → is_success e ≡ false → e ≢ success
not-success e h k = cc (is_success-success, ap is_success k)

-- A longer name with no slash is a name.
pub IsName-append :
    (name s : Str)
    → IsName name
    → has_char b'/' s ≡ false
    → IsPlain s
    → 1 < length s
    → IsName (name ++ s)
IsName-append [] s n h z l = absurd (n.not_empty refl)
IsName-append (c ∷ name) s n h z l = record {
  plain = append-IsPlain (c ∷ name) s n.plain z;
  not_empty = λ e. cc;
  no_slash = rw (has_char-append, n.no_slash) h;
  not_dot = λ e. omega (arith, ap length e, length-append {0} name s);
  not_dots = λ e. omega (arith, ap length e, length-append {0} name s);
}

-- A name and a longer one, that begins with it, are two entries of a directory.
pub Apart-longer :
    (base name s : Str)
    → IsBase base
    → IsName name
    → has_char b'/' s ≡ false
    → IsPlain s
    → 1 < length s
    → Apart ((base ++ name) ++ s) (base ++ name)
Apart-longer base name s b n h z l = record {
  base = base;
  left = name ++ s;
  right = name;
  base_is = b;
  left_is = IsName-append name s n h z l;
  right_is = n;
  differ = λ e. omega (arith, ap length e, length-append {0} name s);
  left_eq = append_assoc base name s;
  right_eq = refl;
}

module _ (os : Os) (P : IsPosix os) (path : Str) (data' : Bytes) (w : os.World) where
  abbrev temp : Str
  temp = path ++ temp_file_util_suffix

  abbrev w' : os.World
  w' = (write_temporary os temp data' w).1

  module _ (a : Apart temp path) where
    write_and_rename-failed :
        is_success (write_and_rename os path data' w).0 ≡ false
        → P.node (write_and_rename os path data' w).1 path ≡ P.node w path
    unfolding write_and_rename
    write_and_rename-failed h = elim (Bool-cases (is_success (write_temporary os temp data' w).0)) [
      | inr e ↦ rw (e, write_and_rename) (write_temporary_others os P temp data' w path a)
      | inl e ↦
          rw (e, write_and_rename)
            (commit_temporary-failed os P temp path w' a
                (not-success _ (rw (e, write_and_rename) at h))
              ∙ write_temporary_others os P temp data' w path a)
    ]

    write_and_rename-success :
        P.node w temp ≢ some device
        → (write_and_rename os path data' w).0 ≡ success
        → (P.node (write_and_rename os path data' w).1 path ≡ some (file data'))
          × (P.node (write_and_rename os path data' w).1 temp ≡ none)
    unfolding write_and_rename
    write_and_rename-success d h = ground (
      arith,
      is_success_iff (write_temporary os temp data' w).0,
      write_temporary-success os P temp data' w d,
      commit_temporary-success os P temp path w' a,
    )

  -- The same where the paths are one file.
  write_and_rename-same :
      c_str temp ≡ c_str path
      → P.node w temp ≢ some device
      → (write_and_rename os path data' w).0 ≡ success
      → P.node (write_and_rename os path data' w).1 temp ≡ some (file data')
  unfolding write_and_rename
  write_and_rename-same e d h = ground (
    arith,
    is_success_iff (write_temporary os temp data' w).0,
    write_temporary-success os P temp data' w d,
    commit_temporary-same os P temp path w' e,
  )

  write_and_rename_others :
      (q : Str)
      → Apart temp q
      → Apart path q
      → P.node (write_and_rename os path data' w).1 q ≡ P.node w q
  unfolding write_and_rename
  write_and_rename_others q a b = ground (
    arith,
    write_temporary_others os P temp data' w q a,
    commit_temporary_others os P temp path w' q a b,
  )

module _ (os : Os) (P : IsPosix os) (path : Str) (some_path : empty path ≡ false) where
  module _ (data' : Bytes) (w : os.World) where
    abbrev ready : os.World
    ready = (ensure_directory os (get_directory path) w).1

    atomic_write_file-cases :
        ((is_success (ensure_directory os (get_directory path) w).0 ≡ false)
          × (atomic_write_file os path data' w ≡ ensure_directory os (get_directory path) w))
        ⊎ (atomic_write_file os path data' w ≡ write_and_rename os path data' ready)
    unfolding atomic_write_file
    atomic_write_file-cases =
        elim (Bool-cases (is_success (ensure_directory os (get_directory path) w).0)) [
          | inl e ↦ inr (rw (some_path, e))
          | inr e ↦ inl (e, rw (some_path, e))
        ]

pub empty-entry : (name : Str) {base : Str} → IsBase base → empty (base ++ name) ≡ false
empty-entry name (slashed [] _) = refl
empty-entry name (slashed (c ∷ d) _) = refl

module _ (os : Os) (P : IsPosix os) (base name : Str) (b : IsBase base) (n : IsName name) where
  abbrev path : Str
  path = base ++ name

  nonempty : empty path ≡ false
  nonempty = empty-entry name b

  module _ (data' : Bytes) (w : os.World) where
    abbrev after : Errc × os.World
    after = atomic_write_file os path data' w

    abbrev w1 : os.World
    w1 = ready os P path nonempty data' w

    abbrev written : Errc × os.World
    written = write_and_rename os path data' w1

    added : Adds P w w1
    added = ensure_directory-Adds os P (get_directory path) w

    apart : Apart (path ++ temp_file_util_suffix) path
    apart =
        Apart-longer base name temp_file_util_suffix b n (unfold has_char in refl)
          (unfold has_char in refl) (omega arith)

    -- For an entry, with no NUL byte in its name, of a directory whose path has no NUL byte and
    -- ends in a slash, with no device at the temporary path: `atomicWriteFile` reports success, and
    -- then the file holds exactly the data and the temporary file is gone, or it reports an error,
    -- and then the contents of the file are what they were.
    pub atomic_write_file_all_or_nothing :
        P.node w (path ++ temp_file_util_suffix) ≢ some device
        → ((after.0 ≡ success)
            × (P.node after.1 path ≡ some (file data'))
            × (P.node after.1 (path ++ temp_file_util_suffix) ≡ none))
          ⊎ ((after.0 ≢ success) × (contents? (P.node after.1 path) ≡ contents? (P.node w path)))
    atomic_write_file_all_or_nothing d = elim (atomic_write_file-cases os P path nonempty data' w) [
      | inl (f, e) ↦ rw e (inr (not-success _ f, added.contents path))
      | inr e ↦ rw e (elim (Bool-cases (is_success written.0)) [
        | inl s ↦
            let done : written.0 ≡ success = (is_success_iff written.0).0 s in
            let moved =
              write_and_rename-success os P path data' w1 apart (added.no_device _ d) done in
            inl (done, moved.0, moved.1)
        | inr f ↦ inr (
          not-success _ f,
          ap contents? (write_and_rename-failed os P path data' w1 apart f) ∙ added.contents path,
        )
      ])
    ]

    -- For an entry, with no NUL byte in its name, of a directory whose path has no NUL byte and
    -- ends in a slash: `atomicWriteFile` changes the contents of no other entry of a directory than
    -- the file and its temporary file, whatever it reports.
    pub atomic_write_file_others :
        (q : Str)
        → Apart (path ++ temp_file_util_suffix) q
        → Apart path q
        → contents? (P.node after.1 q) ≡ contents? (P.node w q)
    atomic_write_file_others q a c = elim (atomic_write_file-cases os P path nonempty data' w) [
      | inl (f, e) ↦ rw e (added.contents q)
      | inr e ↦
          rw e (ap contents? (write_and_rename_others os P path data' w1 q a c) ∙ added.contents q)
    ]

  -- Where the directory is there already, nothing at all happens to another entry.
  pub atomic_write_file_others_node :
      (data' : Bytes) (w : os.World) (q : Str)
      → ensure_directory os (get_directory path) w ≡ (success, w)
      → Apart (path ++ temp_file_util_suffix) q
      → Apart path q
      → P.node (atomic_write_file os path data' w).1 q ≡ P.node w q
  unfolding atomic_write_file
  atomic_write_file_others_node data' w q e a c =
      rw (nonempty, e, is_success-success) (write_and_rename_others os P path data' w q a c)

module _ (os : Os) (P : IsPosix os) (path : Str) (some_path : empty path ≡ false) where
  -- Where the path and its temporary path are one file, a success leaves the data in it.
  pub atomic_write_file-same :
      (data' : Bytes) (w : os.World)
      → c_str (path ++ temp_file_util_suffix) ≡ c_str path
      → P.node w (path ++ temp_file_util_suffix) ≢ some device
      → (atomic_write_file os path data' w).0 ≡ success
      → P.node (atomic_write_file os path data' w).1 path ≡ some (file data')
  atomic_write_file-same data' w e d h =
      let added = ensure_directory-Adds os P (get_directory path) w in
      elim (atomic_write_file-cases os P path some_path data' w) [
        | inl (f, k) ↦ absurd (cc (f, h, ap (λ (r : Errc × os.World). r.0) k, is_success-success))
        | inr k ↦ rw k (
            P.node_same _ path (path ++ temp_file_util_suffix) (sym e)
            ∙ write_and_rename-same os P path data' (ready os P path some_path data' w) e
                (added.no_device _ d) (rw k at h))
      ]
