-- ===== src/Store/Deleting.antt =====
-- `SecureStore::deleteData` and `dataExists` on the files of one id.
use secure_storage.Base.{
  ◌≡◌, ◌≢◌, ◌↔◌, refl, sym, ◌∙◌, ◌⊎◌, inl, inr, true, false, ◌||◌, none, [], arith,
}
use secure_storage.Base.Text.{Str}
use secure_storage.Error.{Errc, success, file_remove_failed, is_success, is_success_iff}
use secure_storage.Os.{Os}
use secure_storage.Os.Posix.{IsPosix, IsBase, Apart}
use secure_storage.FileUtil.{delete_file, path_exists}
use secure_storage.FileUtil.Reading.{delete_file_lem, delete_file_others, path_exists_iff}
use secure_storage.Crypto.{Mbedtls}
use secure_storage.Naming.{validate_data_id}
use secure_storage.Naming.Roles.{
  Named, Role, main, backup, entry, entry-Apart, entry-ne-nil, get_data_file_path-entry,
  get_backup_file_path-entry,
}
use secure_storage.Store.{SecureStore, delete_files, delete_data, data_exists}
use secure_storage.Store.Lifecycle.{IsReady}
use secure_storage.Store.Saving.{apart}

module _ (os : Os) (P : IsPosix os) (main_file backup_file : Str) (main_some : main_file ≢ [])
    (backup_some : backup_file ≢ []) (m_b : Apart main_file backup_file)
    (b_m : Apart backup_file main_file) (w : os.World) where
  abbrev pub first : Errc × os.World
  first = delete_file os main_file w

  abbrev pub second : Errc × os.World
  second = delete_file os backup_file first.1

  abbrev pub deleted : Errc × os.World
  deleted = delete_files os main_file backup_file w

  pub deleted-world : deleted.1 ≡ second.1
  unfolding delete_files
  deleted-world = ground arith

  pub main-kept : P.node second.1 main_file ≡ P.node first.1 main_file
  main-kept = delete_file_others os P backup_file main_file first.1 b_m

  pub backup-kept : P.node first.1 backup_file ≡ P.node w backup_file
  backup-kept = delete_file_others os P main_file backup_file w m_b

  main-failed :
      first.0 ≡ file_remove_failed → P.node w main_file ≢ none → deleted.0 ≡ file_remove_failed
  unfolding delete_files is_success
  main-failed e n = rw ((path_exists_iff os P w main_file).1 (main_some, n), e) refl

  backup-failed :
      first.0 ≡ success
      → second.0 ≡ file_remove_failed
      → P.node w backup_file ≢ none
      → deleted.0 ≡ file_remove_failed
  unfolding delete_files is_success
  backup-failed d e n = rw ((path_exists_iff os P w backup_file).1 (backup_some, n), d, e) refl

  pub both-deleted : first.0 ≡ success → second.0 ≡ success → deleted.0 ≡ success
  unfolding delete_files is_success
  both-deleted d e = rw (d, e) refl

  -- A success leaves neither file. The only other code leaves one of them.
  pub delete_files_lem :
      ((deleted.0 ≡ success)
        × (P.node deleted.1 main_file ≡ none)
        × (P.node deleted.1 backup_file ≡ none))
      ⊎ ((deleted.0 ≡ file_remove_failed)
          × ((P.node deleted.1 main_file ≢ none) ⊎ (P.node deleted.1 backup_file ≢ none)))
  delete_files_lem = rw deleted-world (elim (delete_file_lem os P main_file w) [
    | inr (inr (_, e, _)) ↦ absurd (main_some e)
    | inr (inl (e, n, same)) ↦
        inr (main-failed e n, inl (λ k. n (sym (same main_file) ∙ sym main-kept ∙ k)))
    | inl (d, _, gone) ↦ elim (delete_file_lem os P backup_file first.1) [
      | inr (inr (_, e, _)) ↦ absurd (backup_some e)
      | inl (e, _, gone') ↦ inl (both-deleted d e, main-kept ∙ gone, gone')
      | inr (inl (e, n, same)) ↦
          inr (
            backup-failed d e (λ k. n (backup-kept ∙ k)),
            inr (λ k. n (sym (same backup_file) ∙ k)),
          )
    ]
  ])

  pub delete_files_others :
      (q : Str) → Apart main_file q → Apart backup_file q → P.node deleted.1 q ≡ P.node w q
  delete_files_others q a b =
      rw deleted-world
        (delete_file_others os P backup_file q first.1 b ∙ delete_file_others os P main_file q w a)

module _ (os : Os) (P : IsPosix os) (mb : Mbedtls) (data_id : Str) (s : SecureStore mb)
    (w : os.World) (on : IsReady mb s) (base : IsBase s.root_storage_path)
    (valid : Named data_id) where
  abbrev at : Role → Str
  at r = entry s.root_storage_path data_id r

  exists-ready :
      data_exists os mb data_id s w ≡ (path_exists os w (at main) || path_exists os w (at backup))
  unfolding data_exists
  exists-ready =
      rw
        (
          on.initialized,
          (is_success_iff (validate_data_id data_id)).1 valid.0,
          get_data_file_path-entry,
          get_backup_file_path-entry,
        )
        refl

  -- For a store that is ready, a root path that ends in a slash and a valid id: `dataExists` is
  -- true exactly if there is something at the path of the main file or of the backup.
  pub data_exists_iff :
      (data_exists os mb data_id s w ≡ true)
      ↔ ((P.node w (at main) ≢ none) ⊎ (P.node w (at backup) ≢ none))
  data_exists_iff = ground (
    arith,
    exists-ready,
    path_exists_iff os P w (at main),
    path_exists_iff os P w (at backup),
    entry-ne-nil s.root_storage_path data_id main base,
    entry-ne-nil s.root_storage_path data_id backup base,
  )

  abbrev pub removal : Errc × os.World
  removal = delete_files os (at main) (at backup) w

  pub delete_data-ready : delete_data os mb data_id s w ≡ removal
  unfolding delete_data
  delete_data-ready =
      rw
        (
          on.initialized,
          (is_success_iff (validate_data_id data_id)).1 valid.0,
          get_data_file_path-entry,
          get_backup_file_path-entry,
        )
        refl

  pub removal_lem :
      ((removal.0 ≡ success)
        × (P.node removal.1 (at main) ≡ none)
        × (P.node removal.1 (at backup) ≡ none))
      ⊎ ((removal.0 ≡ file_remove_failed)
          × ((P.node removal.1 (at main) ≢ none) ⊎ (P.node removal.1 (at backup) ≢ none)))
  removal_lem =
      delete_files_lem os P (at main) (at backup)
        (entry-ne-nil s.root_storage_path data_id main base)
        (entry-ne-nil s.root_storage_path data_id backup base)
        (apart s.root_storage_path data_id base valid main backup (λ e. cc))
        (apart s.root_storage_path data_id base valid backup main (λ e. cc)) w

module _ (os : Os) (P : IsPosix os) (mb : Mbedtls) (data_id : Str) (s : SecureStore mb)
    (w : os.World) (on : IsReady mb s) (base : IsBase s.root_storage_path)
    (valid : Named data_id) where
  -- For a store that is ready, a root path with no NUL byte that ends in a slash and a valid id
  -- with no NUL byte: `deleteData` reports success, and then `dataExists` is false, or it reports
  -- `FileRemoveFailed`, and then `dataExists` is true.
  pub delete_data_lem :
      let (code, w') = delete_data os mb data_id s w in
      ((code ≡ success) × (data_exists os mb data_id s w' ≡ false))
      ⊎ ((code ≡ file_remove_failed) × (data_exists os mb data_id s w' ≡ true))
  delete_data_lem =
      rw (delete_data-ready os P mb data_id s w on base valid)
        (elim (removal_lem os P mb data_id s w on base valid) [
          | inl (e, m, b) ↦ inl (e, ground (arith, found, m, b))
          | inr (e, left) ↦ inr (e, found.1 left)
        ])
    where
      found : (data_exists os mb data_id s (removal os P mb data_id s w on base valid).1 ≡ true) ↔ (
          (P.node
              (removal os P mb data_id s w on base valid).1
              (entry s.root_storage_path data_id main)
            ≢ none)
          ⊎ (P.node
                (removal os P mb data_id s w on base valid).1
                (entry s.root_storage_path data_id backup)
              ≢ none))
      found =
          data_exists_iff os P mb data_id s (removal os P mb data_id s w on base valid).1 on base
            valid

  -- For a store that is ready, a root path with no NUL byte that ends in a slash and a valid id
  -- with no NUL byte: `deleteData` leaves each of the four files of every other valid id with no
  -- NUL byte as it was.
  pub delete_data_others :
      (other : Str) (r : Role)
      → Named other
      → other ≢ data_id
      → let q = entry s.root_storage_path other r in
        P.node (delete_data os mb data_id s w).1 q ≡ P.node w q
  delete_data_others other r valid_other differ =
      rw (delete_data-ready os P mb data_id s w on base valid) (
        delete_files_others os P (entry s.root_storage_path data_id main)
          (entry s.root_storage_path data_id backup)
          (entry-ne-nil s.root_storage_path data_id main base)
          (entry-ne-nil s.root_storage_path data_id backup base)
          (apart s.root_storage_path data_id base valid main backup (λ e. cc))
          (apart s.root_storage_path data_id base valid backup main (λ e. cc)) w
          (entry s.root_storage_path other r)
          (entry-Apart s.root_storage_path data_id other main r base valid valid_other
            (inl (λ k. differ (sym k))))
          (entry-Apart s.root_storage_path data_id other backup r base valid valid_other
            (inl (λ k. differ (sym k)))))
