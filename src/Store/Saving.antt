-- ===== src/Store/Saving.antt =====
-- `SecureStore::storeData` on the files: what a success has written, what a failure keeps, and that no
-- other file changes, whatever calls of the system fail.
use secure_storage.Base.{
  ◌≡◌, ◌≢◌, ap, ◌∙◌, ◌⊎◌, inl, inr, true, false, none, some, [], ◌∷◌, ◌++◌, append_assoc, arith,
}
use secure_storage.Base.Text.{Str, Bytes}
use secure_storage.Error.{Errc, success, is_success, is_success_iff, is_success-success}
use secure_storage.Os.{Os}
use secure_storage.Os.Posix.{IsPosix, IsBase, slashed, Apart, file, device, contents?}
use secure_storage.FileUtil.{
  atomic_write_file, delete_file, path_exists, ensure_directory, get_directory,
}
use secure_storage.FileUtil.Reading.{delete_file_others, path_exists_iff}
use secure_storage.FileUtil.Paths.{ensure_directory-present}
use secure_storage.FileUtil.Atomic.{
  atomic_write_file_all_or_nothing, atomic_write_file_others, atomic_write_file_others_node,
}
use secure_storage.Naming.Roles.{
  Named, Role, main, backup, temp, temp_temp, suffix, entry, entry-Apart, entry-ne-nil, file-IsName,
  file-NoSeparator, temp_of_temp,
}
use secure_storage.Store.{back_up, replace_main, store_encrypted}
use secure_storage.Store.Steps.{
  AreApart, Holds, back_up_others, back_up_outcome, replace_main-success, replace_main-Holds,
  replace_main_others, Holds-same,
}

module _ (root data_id : Str) (base : IsBase root) (valid : Named data_id) where
  abbrev path : Role → Str
  path r = entry root data_id r

  pub apart : (r s : Role) → r ≢ s → Apart (path r) (path s)
  apart r s differ = entry-Apart root data_id data_id r s base valid valid (inr differ)

  pub files-AreApart : AreApart (path main) (path backup) (path temp)
  files-AreApart = record {
    main_backup = apart main backup (λ e. cc);
    backup_main = apart backup main (λ e. cc);
    temp_main = apart temp main (λ e. cc);
    temp_backup = apart temp backup (λ e. cc);
    main_temp = apart main temp (λ e. cc);
    backup_temp = apart backup temp (λ e. cc);
    main_some = entry-ne-nil root data_id main base;
    backup_some = entry-ne-nil root data_id backup base;
  }

module _ (os : Os) (P : IsPosix os) (root data_id : Str) (base : IsBase root)
    (valid : Named data_id) (enc : Bytes) (w : os.World) where
  abbrev at : Role → Str
  at r = entry root data_id r

  abbrev pub written : Errc × os.World
  written = atomic_write_file os (at temp) enc w

  abbrev pub stored : Errc × os.World
  stored = store_encrypted os (at main) (at backup) (at temp) enc w

  abbrev pub A : AreApart (at main) (at backup) (at temp)
  A = files-AreApart root data_id base valid

  -- The two ways that `storeData` goes after its first write.
  pub stored-cases :
      ((is_success written.0 ≡ false)
        × (stored ≡ (written.0, (delete_file os (at temp) written.1).1)))
      ⊎ ((is_success written.0 ≡ true)
          × (stored
              ≡ replace_main os
                  (at main)
                  (at backup)
                  (at temp)
                  (back_up os (at main) (at backup) written.1)))
  unfolding store_encrypted
  stored-cases = ground arith

  module _ (no_device : P.node w (at temp_temp) ≢ some device) where
    pub written-success : is_success written.0 ≡ true → P.node written.1 (at temp) ≡ some (file enc)
    written-success s =
        elim (atomic_write_file_all_or_nothing os P root (data_id ++ suffix temp) base
          (file-IsName data_id temp valid) enc w (rw temp_of_temp no_device)) [
            | inl done ↦ done.1
            | inr failed ↦ absurd (failed.0 ((is_success_iff written.0).0 s))
          ]

    -- If it reports success, the main file holds the encrypted data.
    pub store_encrypted-success : stored.0 ≡ success → P.node stored.1 (at main) ≡ some (file enc)
    store_encrypted-success h = elim stored-cases [
      | inl (f, e) ↦ absurd (
          cc (
            f,
            ap is_success h,
            ap (λ (r : Errc × os.World). is_success r.0) e,
            is_success-success,
          ))
      | inr (s, e) ↦
          let moved = replace_main-success os P (at main) (at backup) (at temp) A _ (rw e at h) in
          rw e (
            moved.0
            ∙ back_up_others os P (at main) (at backup) (at temp) A written.1 (at temp) A.main_temp
                A.backup_temp
            ∙ written-success s)
    ]

  abbrev pub HasData : Bytes → os.World → Type 0
  HasData old w' = Holds os P (at main) (at backup) (at temp) A old w'

  HasData-present : (old : Bytes) → HasData old w → (r : Role) × (P.node w (at r) ≢ none)
  HasData-present old (inl m) = (main, λ n. cc)
  HasData-present old (inr (_, b)) = (backup, λ n. cc)

  pub directory-ready :
      (p r : Role)
      → P.node w (at p) ≢ none
      → ensure_directory os (get_directory (at r)) w ≡ (success, w)
  directory-ready = ready base
    where
      ready :
          {d : Str}
          → IsBase d
          → (p r : Role) → P.node w (entry d data_id p) ≢ none
          → ensure_directory os (get_directory (entry d data_id r)) w ≡ (success, w)
      ready (slashed d z) p r there = rw (append_assoc d (b'/' ∷ []) (data_id ++ suffix r)) (
          ensure_directory-present os P w d (data_id ++ suffix p) (data_id ++ suffix r) z
            (file-IsName data_id p valid)
            (λ n. there (rw (append_assoc d (b'/' ∷ []) (data_id ++ suffix p)) n))
            (file-NoSeparator data_id r valid))

  -- Where one of the files is there, the directory is, and the first write changes no other file.
  written-same :
      (old : Bytes) (r : Role)
      → HasData old w
      → temp ≢ r
      → temp_temp ≢ r
      → P.node written.1 (at r) ≡ P.node w (at r)
  written-same old r held t tt' =
      let (p, there) = HasData-present old held in
      atomic_write_file_others_node os P root (data_id ++ suffix temp) base
        (file-IsName data_id temp valid) enc w (at r) (directory-ready p temp there)
        (rw temp_of_temp (apart root data_id base valid temp_temp r tt'))
        (apart root data_id base valid temp r t)

  main-held :
      (old : Bytes) (w' : os.World)
      → path_exists os w' (at main) ≡ true
      → HasData old w'
      → P.node w' (at main) ≡ some (file old)
  main-held old w' e (inl m) = m
  main-held old w' e (inr (n, _)) = absurd (((path_exists_iff os P w' (at main)).0 e).1 n)

  back_up-Holds :
      (old : Bytes) (w' : os.World)
      → HasData old w'
      → HasData old (back_up os (at main) (at backup) w')
  back_up-Holds old w' held = elim (back_up_outcome os P (at main) (at backup) (at temp) A w') [
    | inl (_, same) ↦ rw same held
    | inr (inl (is_there, m)) ↦ inl (m ∙ main-held old w' is_there held)
    | inr (inr (is_there, b, gone)) ↦ inr (gone, b ∙ main-held old w' is_there held)
  ]

  -- If it reports an error, the current data of the id is still there, in the main file or the backup.
  pub store_encrypted-Holds :
      (old : Bytes) → HasData old w → stored.0 ≢ success → HasData old stored.1
  store_encrypted-Holds old held h = elim stored-cases [
    | inl (f, e) ↦ rw e (
        Holds-same os P (at main) (at backup) (at temp) A written.1 _ old
          (delete_file_others os P (at temp) (at main) written.1 A.temp_main)
          (delete_file_others os P (at temp) (at backup) written.1 A.temp_backup) held')
    | inr (s, e) ↦ rw e (
        replace_main-Holds os P (at main) (at backup) (at temp) A _ old (rw e at h)
          (back_up-Holds old written.1 held'))
  ]
    where
      held' : HasData old written.1
      held' =
          Holds-same os P (at main) (at backup) (at temp) A w written.1 old
            (written-same old main held (λ e. cc) (λ e. cc))
            (written-same old backup held (λ e. cc) (λ e. cc)) held

  -- No file but the four of this id changes.
  pub store_encrypted_others :
      (q : Str)
      → ((r : Role) → Apart (at r) q)
      → contents? (P.node stored.1 q) ≡ contents? (P.node w q)
  store_encrypted_others q a = elim stored-cases [
    | inl (f, e) ↦
        rw e (ap contents? (delete_file_others os P (at temp) q written.1 (a temp)) ∙ first)
    | inr (s, e) ↦ rw e (
        ap contents? (
          replace_main_others os P (at main) (at backup) (at temp) A _ q (a main) (a backup)
            (a temp)
          ∙ back_up_others os P (at main) (at backup) (at temp) A written.1 q (a main) (a backup))
        ∙ first)
  ]
    where
      first : contents? (P.node written.1 q) ≡ contents? (P.node w q)
      first =
          atomic_write_file_others os P root (data_id ++ suffix temp) base
            (file-IsName data_id temp valid) enc w q (rw temp_of_temp (a temp_temp)) (a temp)
