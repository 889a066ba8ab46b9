-- ===== src/Store/Shifts.antt =====
-- Where the contents of the main file and of the backup come from: the steps of `storeData`,
-- `deleteData` and `retrieveData` only move what was there, or drop it.
use secure_storage.Base.{◌≡◌, ◌≢◌, refl, ap, ◌⊎◌, inl, inr, Option, none, arith, Bool-cases}
use secure_storage.Base.Text.{c_str, Str, Bytes}
use secure_storage.Error.{success}
use secure_storage.Os.{Os}
use secure_storage.Os.Posix.{IsPosix, contents?}
use secure_storage.FileUtil.{delete_file, path_exists}
use secure_storage.FileUtil.Reading.{delete_file_lem, delete_file_others}
use secure_storage.Store.{back_up, restore_backup, replace_main}
use secure_storage.Store.Steps.{
  AreApart, prepared, prepared_others, restore_backup_outcome, replace_main-failed,
}

module _ (os : Os) (P : IsPosix os) (main_file backup_file : Str) where
  -- Nothing, or what the main file or the backup had.
  abbrev pub Old : os.World → Option Bytes → Type 0
  Old w x =
      (x ≡ none) ⊎ (x ≡ contents? (P.node w main_file)) ⊎ (x ≡ contents? (P.node w backup_file))

  abbrev pub Shifted : os.World → os.World → Type 0
  Shifted w w' = Old w (contents? (P.node w' main_file)) × Old w (contents? (P.node w' backup_file))

  pub Shifted-same :
      (w w' : os.World)
      → contents? (P.node w' main_file) ≡ contents? (P.node w main_file)
      → contents? (P.node w' backup_file) ≡ contents? (P.node w backup_file)
      → Shifted w w'
  Shifted-same w w' m b = (inr (inl m), inr (inr b))

  pub Old-Shifted : (w w' : os.World) (x : Option Bytes) → Shifted w w' → Old w' x → Old w x
  Old-Shifted w w' x sh o = ground arith

  pub Shifted-trans : (w w' w'' : os.World) → Shifted w w' → Shifted w' w'' → Shifted w w''
  Shifted-trans w w' w'' first second =
      (Old-Shifted w w' _ first second.0, Old-Shifted w w' _ first second.1)

  -- Deleting drops the file, or it does nothing.
  pub deletion :
      (p : Str) (w : os.World)
      → (P.node (delete_file os p w).1 p ≡ none) ⊎ (P.node (delete_file os p w).1 p ≡ P.node w p)
  deletion p w = elim (delete_file_lem os P p w) [
    | inl (_, _, gone) ↦ inl gone
    | inr (inl (_, _, same)) ↦ inr (same p)
    | inr (inr (_, _, same)) ↦ inr (ap (λ v. P.node v p) same)
  ]

module _ (os : Os) (P : IsPosix os) (main_file backup_file temp_file : Str)
    (A : AreApart main_file backup_file temp_file) where
  prepared-Shifted :
      (w : os.World)
      → Shifted os P main_file backup_file w (prepared os P main_file backup_file temp_file A w)
  prepared-Shifted w = ground (
    arith,
    ap contents? (prepared_others os P main_file backup_file temp_file A w main_file A.backup_main),
    deletion os P main_file backup_file backup_file w,
  )

  rename-Shifted :
      (w : os.World)
      → Shifted os P main_file backup_file w (os.rename w (c_str main_file) (c_str backup_file)).1
  rename-Shifted w = elim (Bool-cases (os.rename w (c_str main_file) (c_str backup_file)).0) [
    | inl t ↦ (
      inl (ap contents? (P.renamed_from w main_file backup_file A.main_backup t)),
      inr (inl (ap contents? (P.renamed_to w main_file backup_file A.main_backup t))),
    )
    | inr f ↦
        Shifted-same os P main_file backup_file w _
          (ap contents? (P.rename_failed w main_file backup_file main_file f))
          (ap contents? (P.rename_failed w main_file backup_file backup_file f))
  ]

  pub back_up-Shifted :
      (w : os.World) → Shifted os P main_file backup_file w (back_up os main_file backup_file w)
  unfolding back_up
  back_up-Shifted w = elim (Bool-cases (path_exists os w main_file)) [
    | inr f ↦ rw (f, back_up) (Shifted-same os P main_file backup_file w w refl refl)
    | inl t ↦
        rw (t, back_up)
          (Shifted-trans os P main_file backup_file w _ _ (prepared-Shifted w)
            (rename-Shifted (prepared os P main_file backup_file temp_file A w)))
  ]

  restore_backup-Shifted :
      (w : os.World)
      → Shifted os P main_file backup_file w (restore_backup os main_file backup_file w)
  restore_backup-Shifted w =
      elim (restore_backup_outcome os P main_file backup_file temp_file A w) [
        | inl (m, b) ↦ Shifted-same os P main_file backup_file w _ (ap contents? m) (ap contents? b)
        | inr (_, m, b) ↦ (inr (inr (ap contents? m)), inl (ap contents? b))
      ]

  pub replace_main-Shifted :
      (w : os.World)
      → (replace_main os main_file backup_file temp_file w).0 ≢ success
      → Shifted os P main_file backup_file w (replace_main os main_file backup_file temp_file w).1
  replace_main-Shifted w h =
      let (f, e) = replace_main-failed os P main_file backup_file temp_file A w h in
      rw e (
        Shifted-trans os P main_file backup_file w _ _
          (Shifted-same os P main_file backup_file w
            (os.rename w (c_str temp_file) (c_str main_file)).1
            (ap contents? (P.rename_failed w temp_file main_file main_file f))
            (ap contents? (P.rename_failed w temp_file main_file backup_file f)))
          (Shifted-trans os P main_file backup_file _ _ _ (restore_backup-Shifted _) (
            Shifted-same os P main_file backup_file _ _
              (ap contents? (delete_file_others os P temp_file main_file _ A.temp_main))
              (ap contents? (delete_file_others os P temp_file backup_file _ A.temp_backup)))))
