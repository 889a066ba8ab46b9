-- ===== src/Store/Fallback.antt =====
-- `SecureStore::retrieveData` when the main file is missing, cannot be read or is corrupt.
use secure_storage.Base.{
  ◌≡◌, ◌≢◌, refl, ap, ◌∙◌, ◌⊎◌, inl, inr, Bool, false, ◌&&◌, none, some, [], ◌++◌, arith,
  Bool-cases, if◌then◌else◌,
}
use secure_storage.Base.Text.{Str, Bytes}
use secure_storage.Error.{Errc, success, is_success, is_success_iff, is_success-success}
use secure_storage.Os.{Os}
use secure_storage.Os.Posix.{IsPosix, IsBase, Apart, file, device, contents?}
use secure_storage.FileUtil.{read_file, atomic_write_file, delete_file}
use secure_storage.FileUtil.Reading.{delete_file_others}
use secure_storage.FileUtil.Atomic.{atomic_write_file_all_or_nothing, atomic_write_file_others}
use secure_storage.Crypto.{Mbedtls, IsLawful}
use secure_storage.Crypto.Encryptor.{Encryptor, decrypt, ready?}
use secure_storage.Crypto.Encryptor.Laws.{IsSealed}
use secure_storage.Naming.Roles.{
  Named, Role, main, backup, temp, entry, suffix, file-IsName, temp_of,
}
use secure_storage.Store.{retrieve_main, restore_main}
use secure_storage.Store.Saving.{apart}
use secure_storage.Store.Retrieving.{Sealed-file, to_backup, from_backup}

module _ (os : Os) (P : IsPosix os) (root data_id : Str) (base : IsBase root)
    (valid : Named data_id) (bytes : Bytes) (was_read : Bool) (w : os.World) where
  abbrev at : Role → Str
  at r = entry root data_id r

  abbrev cleared : os.World
  cleared = if was_read then (delete_file os (at main) w).1 else w

  cleared_others : (q : Str) → Apart (at main) q → P.node cleared q ≡ P.node w q
  cleared_others q a = ground (arith, delete_file_others os P (at main) q w a)

  -- The restoration leaves the backup as it is.
  pub restore_main-backup :
      contents? (P.node (restore_main os (at main) bytes was_read w) (at backup))
      ≡ contents? (P.node w (at backup))
  unfolding restore_main
  restore_main-backup =
      atomic_write_file_others os P root (data_id ++ suffix main) base
        (file-IsName data_id main valid) bytes cleared (at backup)
        (rw temp_of (apart root data_id base valid temp backup (λ e. cc)))
        (apart root data_id base valid main backup (λ e. cc))
      ∙ ap contents?
          (cleared_others (at backup) (apart root data_id base valid main backup (λ e. cc)))

  -- It puts the bytes into the main file, if its write reports success.
  pub restore_main-main :
      P.node w (at temp) ≢ some device
      → (atomic_write_file os (at main) bytes cleared).0 ≡ success
      → P.node (restore_main os (at main) bytes was_read w) (at main) ≡ some (file bytes)
  unfolding restore_main
  restore_main-main d h =
      elim (atomic_write_file_all_or_nothing os P root (data_id ++ suffix main) base
        (file-IsName data_id main valid) bytes cleared
        (rw (temp_of, cleared_others (at temp) (apart root data_id base valid main temp (λ e. cc)))
          d)) [ inl done ↦ done.1 | inr failed ↦ absurd (failed.0 h) ]

  -- The main file has the bytes, or the contents that it had when its deletion was tried.
  pub restore_main-outcome :
      P.node w (at temp) ≢ some device
      → let after = P.node (restore_main os (at main) bytes was_read w) (at main) in
        (contents? after ≡ some bytes) ⊎ (contents? after ≡ contents? (P.node cleared (at main)))
  unfolding restore_main
  restore_main-outcome d =
      elim (atomic_write_file_all_or_nothing os P root (data_id ++ suffix main) base
        (file-IsName data_id main valid) bytes cleared
        (rw (temp_of, cleared_others (at temp) (apart root data_id base valid main temp (λ e. cc)))
          d)) [ inl done ↦ inl (ap contents? done.1) | inr failed ↦ inr failed.1 ]

  -- No other file changes, but for the temporary one.
  pub restore_main_others :
      (q : Str)
      → Apart (at temp) q
      → Apart (at main) q
      → contents? (P.node (restore_main os (at main) bytes was_read w) q) ≡ contents? (P.node w q)
  unfolding restore_main
  restore_main_others q t a =
      atomic_write_file_others os P root (data_id ++ suffix main) base
        (file-IsName data_id main valid) bytes cleared q (rw temp_of t) a
      ∙ ap contents? (cleared_others q a)

module _ (os : Os) (P : IsPosix os) (mb : Mbedtls) (L : IsLawful mb) (root data_id : Str)
    (base : IsBase root) (valid : Named data_id) (key : Bytes) (e : Encryptor mb)
    (w : os.World) where
  abbrev file_of : Role → Str
  file_of r = entry root data_id r

  abbrev main_read : Errc × Bytes
  main_read = read_file os (file_of main) w

  -- For a valid id with no NUL byte below a root path with no NUL byte that ends in a slash, an
  -- encryptor that is ready and no device at the temporary path: if the main file cannot be read or
  -- does not decrypt, and the backup is a readable file with data sealed under the key, the
  -- retrieval succeeds with that data, the backup keeps its contents, and the main file has the
  -- same contents unless the write that restores it reports an error.
  pub retrieve_main-fallback :
      (plain bytes : Bytes)
      → ready? mb e ≢ none
      → (is_success main_read.0 && is_success (decrypt mb main_read.1 key [] [] e).0) ≡ false
      → P.node w (file_of backup) ≡ some (file bytes)
      → (read_file os (file_of backup) w).0 ≡ success
      → IsSealed mb L plain key [] bytes
      → P.node w (file_of temp) ≢ some device
      → let (code, output, w') = retrieve_main os mb (file_of main) (file_of backup) key e w in
        let ready_world =
          if is_success main_read.0 then (delete_file os (file_of main) w).1 else w in
        (code ≡ success)
        × (output ≡ plain)
        × (contents? (P.node w' (file_of backup)) ≡ some bytes)
        × ((P.node w' (file_of main) ≡ some (file bytes))
            ⊎ ((atomic_write_file os (file_of main) bytes ready_world).0 ≢ success))
  retrieve_main-fallback plain bytes ready fails n readable sealed d =
      rw
        (to_backup os P mb L (file_of main) (file_of backup) key e w fails
          ∙ from_backup os P mb L (file_of main) (file_of backup) key e w plain ready
              (Sealed-file os P mb L (file_of main) (file_of backup) key e w (file_of backup) plain
                bytes n readable sealed)
              was_read)
        (
          refl,
          refl,
          restore_main-backup os P root data_id base valid bytes was_read w ∙ ap contents? n,
          restored,
        )
    where
      was_read : Bool
      was_read = is_success main_read.0

      ready_world : os.World
      ready_world = if was_read then (delete_file os (file_of main) w).1 else w

      restored :
          (P.node (restore_main os (file_of main) bytes was_read w) (file_of main)
            ≡ some (file bytes))
          ⊎ ((atomic_write_file os (file_of main) bytes ready_world).0 ≢ success)
      restored =
          elim (Bool-cases (is_success (atomic_write_file os (file_of main) bytes ready_world).0)) [
            | inl s ↦ inl (
                restore_main-main os P root data_id base valid bytes was_read w d
                  ((is_success_iff _).0 s))
            | inr f ↦ inr (λ k. cc (f, ap is_success k, is_success-success))
          ]
