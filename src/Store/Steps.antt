-- ===== src/Store/Steps.antt =====
-- The steps of `SecureStore::storeData` on the files of one id.
use secure_storage.Base.{
  ◌≡◌, ◌≢◌, ◌∙◌, ◌⊎◌, inl, inr, true, false, none, some, [], arith, if◌then◌else◌,
}
use secure_storage.Base.Text.{c_str, Str, Bytes}
use secure_storage.Error.{success}
use secure_storage.Os.{Os}
use secure_storage.Os.Posix.{IsPosix, Apart, Node, file}
use secure_storage.FileUtil.{delete_file, path_exists}
use secure_storage.FileUtil.Reading.{delete_file_others, path_exists_iff}
use secure_storage.Store.{back_up, restore_backup, replace_main}

-- The paths of one id are entries of a directory, apart from one another.
pub record AreApart (main_file backup_file temp_file : Str) : Type 0 where
  pub main_backup : Apart main_file backup_file
  pub backup_main : Apart backup_file main_file
  pub temp_main : Apart temp_file main_file
  pub temp_backup : Apart temp_file backup_file
  pub main_temp : Apart main_file temp_file
  pub backup_temp : Apart backup_file temp_file
  pub main_some : main_file ≢ []
  pub backup_some : backup_file ≢ []

module _ (os : Os) (P : IsPosix os) (main_file backup_file temp_file : Str)
    (A : AreApart main_file backup_file temp_file) where
  -- The contents are in the main file, or in the backup and there is no main file.
  abbrev pub Holds : Bytes → os.World → Type 0
  Holds old w =
      (P.node w main_file ≡ some (file old))
      ⊎ ((P.node w main_file ≡ none) × (P.node w backup_file ≡ some (file old)))

  abbrev pub prepared : os.World → os.World
  prepared w = if path_exists os w backup_file then (delete_file os backup_file w).1 else w

  pub prepared_others :
      (w : os.World) (q : Str) → Apart backup_file q → P.node (prepared w) q ≡ P.node w q
  prepared_others w q a = ground (arith, delete_file_others os P backup_file q w a)

  pub back_up_others :
      (w : os.World) (q : Str)
      → Apart main_file q
      → Apart backup_file q
      → P.node (back_up os main_file backup_file w) q ≡ P.node w q
  unfolding back_up
  back_up_others w q a b =
      ground
        (arith, P.rename_others (prepared w) main_file backup_file q a b, prepared_others w q b)

  -- Step 2 leaves a present main file where it is, or has moved it to the backup.
  pub back_up_outcome :
      (w : os.World)
      → let w' = back_up os main_file backup_file w in
        ((path_exists os w main_file ≡ false) × (w' ≡ w))
        ⊎ ((path_exists os w main_file ≡ true) × (P.node w' main_file ≡ P.node w main_file))
        ⊎ ((path_exists os w main_file ≡ true)
            × (P.node w' backup_file ≡ P.node w main_file)
            × (P.node w' main_file ≡ none))
  unfolding back_up
  back_up_outcome w = ground (
    arith,
    P.renamed_to (prepared w) main_file backup_file A.main_backup,
    P.renamed_from (prepared w) main_file backup_file A.main_backup,
    P.rename_failed (prepared w) main_file backup_file main_file,
    prepared_others w main_file A.backup_main,
  )

  pub restore_backup_others :
      (w : os.World) (q : Str)
      → Apart main_file q
      → Apart backup_file q
      → P.node (restore_backup os main_file backup_file w) q ≡ P.node w q
  unfolding restore_backup
  restore_backup_others w q a b = ground (arith, P.rename_others w backup_file main_file q b a)

  pub restore_backup_outcome :
      (w : os.World)
      → let w' = restore_backup os main_file backup_file w in
        ((P.node w' main_file ≡ P.node w main_file)
          × (P.node w' backup_file ≡ P.node w backup_file))
        ⊎ ((path_exists os w main_file ≡ false)
            × (P.node w' main_file ≡ P.node w backup_file)
            × (P.node w' backup_file ≡ none))
  unfolding restore_backup
  restore_backup_outcome w = ground (
    arith,
    P.renamed_to w backup_file main_file A.backup_main,
    P.renamed_from w backup_file main_file A.backup_main,
    P.rename_failed w backup_file main_file main_file,
    P.rename_failed w backup_file main_file backup_file,
  )

  present :
      (w : os.World) (n : Node) → P.node w main_file ≡ some n → path_exists os w main_file ≡ true
  present w n e = (path_exists_iff os P w main_file).1 (A.main_some, λ m. cc)

  restore_backup-Holds :
      (w : os.World) (old : Bytes)
      → Holds old w
      → Holds old (restore_backup os main_file backup_file w)
  restore_backup-Holds w old (inl m) = elim (restore_backup_outcome w) [
    | inl (m', b') ↦ inl (m' ∙ m)
    | inr (gone, _, _) ↦ absurd (cc (gone, present w (file old) m))
  ]
  restore_backup-Holds w old (inr (n, b)) = elim (restore_backup_outcome w) [
    | inl (m', b') ↦ inr (m' ∙ n, b' ∙ b)
    | inr (gone, m', b') ↦ inl (m' ∙ b)
  ]

  -- Step 3 puts the temporary file in place of the main file, or it loses nothing.
  pub replace_main-success :
      (w : os.World)
      → let (e, w') = replace_main os main_file backup_file temp_file w in
        e ≡ success
        → (P.node w' main_file ≡ P.node w temp_file)
          × (P.node w' backup_file ≡ P.node w backup_file)
          × (P.node w' temp_file ≡ none)
  unfolding replace_main
  replace_main-success w h = ground (
    arith,
    P.renamed_to w temp_file main_file A.temp_main,
    P.renamed_from w temp_file main_file A.temp_main,
    P.rename_others w temp_file main_file backup_file A.temp_backup A.main_backup,
  )

  abbrev pub unmoved : os.World → os.World
  unmoved w =
      restore_backup os main_file backup_file (os.rename w (c_str temp_file) (c_str main_file)).1

  pub replace_main-failed :
      (w : os.World)
      → (replace_main os main_file backup_file temp_file w).0 ≢ success
      → ((os.rename w (c_str temp_file) (c_str main_file)).0 ≡ false)
        × ((replace_main os main_file backup_file temp_file w).1
            ≡ (delete_file os temp_file (unmoved w)).1)
  unfolding replace_main
  replace_main-failed w h = ground arith

  pub Holds-same :
      (w w' : os.World) (old : Bytes)
      → P.node w' main_file ≡ P.node w main_file
      → P.node w' backup_file ≡ P.node w backup_file
      → Holds old w
      → Holds old w'
  Holds-same w w' old m b (inl h) = inl (m ∙ h)
  Holds-same w w' old m b (inr (n, h)) = inr (m ∙ n, b ∙ h)

  pub replace_main-Holds :
      (w : os.World) (old : Bytes)
      → (replace_main os main_file backup_file temp_file w).0 ≢ success
      → Holds old w
      → Holds old (replace_main os main_file backup_file temp_file w).1
  replace_main-Holds w old h held =
      let (f, e) = replace_main-failed w h in
      rw e (
        Holds-same (unmoved w) _ old (delete_file_others os P temp_file main_file _ A.temp_main)
          (delete_file_others os P temp_file backup_file _ A.temp_backup)
          (restore_backup-Holds _ old (
            Holds-same w _ old (P.rename_failed w temp_file main_file main_file f)
              (P.rename_failed w temp_file main_file backup_file f) held)))

  pub replace_main_others :
      (w : os.World) (q : Str)
      → Apart main_file q
      → Apart backup_file q
      → Apart temp_file q
      → P.node (replace_main os main_file backup_file temp_file w).1 q ≡ P.node w q
  unfolding replace_main
  replace_main_others w q a b t = ground (
    arith,
    P.rename_others w temp_file main_file q t a,
    restore_backup_others (os.rename w (c_str temp_file) (c_str main_file)).1 q a b,
    delete_file_others os P temp_file q (unmoved w) t,
  )
