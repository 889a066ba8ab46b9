-- ===== src/Store/Retrieving.antt =====
-- `SecureStore::retrieveData` on the files of one id: the main file, then the backup.
use secure_storage.Base.{
  ◌≡◌, ◌≢◌, ◌⊎◌, inl, inr, Bool, false, ◌&&◌, none, some, [], arith, Bool-cases,
}
use secure_storage.Base.Text.{Str, Bytes}
use secure_storage.Error.{Errc, success, is_success, is_success_iff, is_success-success}
use secure_storage.Os.{Os}
use secure_storage.Os.Posix.{IsPosix, file}
use secure_storage.FileUtil.{read_file}
use secure_storage.FileUtil.Reading.{read_file-bytes}
use secure_storage.Crypto.{Mbedtls, IsLawful}
use secure_storage.Crypto.Encryptor.{Encryptor, decrypt, ready?}
use secure_storage.Crypto.Encryptor.Laws.{IsSealed}
use secure_storage.Crypto.Encryptor.Decrypting.{decrypt-sealed, decrypt-IsSealed, decrypt-failed}
use secure_storage.Store.{retrieve_main, retrieve_backup, restore_main}

module _ (os : Os) (P : IsPosix os) (mb : Mbedtls) (L : IsLawful mb) (main_file backup_file : Str)
    (key : Bytes) (e : Encryptor mb) (w : os.World) where
  abbrev retrieved : Errc × Bytes × os.World
  retrieved = retrieve_main os mb main_file backup_file key e w

  abbrev main_read : Errc × Bytes
  main_read = read_file os main_file w

  abbrev backup_read : Errc × Bytes
  backup_read = read_file os backup_file w

  abbrev opened_from : Bytes → Errc × Bytes
  opened_from bytes = decrypt mb bytes key [] [] e

  -- The file at a path, as its reading reports it, is sealed data.
  pub record Sealed (path : Str) (plain : Bytes) : Type 0 where
    pub bytes : Bytes
    pub read : read_file os path w ≡ (success, bytes)
    pub is_sealed : IsSealed mb L plain key [] bytes

  -- A readable file with sealed data.
  abbrev pub Sealed-file :
      (path : Str) (plain bytes : Bytes)
      → P.node w path ≡ some (file bytes)
      → (read_file os path w).0 ≡ success
      → IsSealed mb L plain key [] bytes
      → Sealed path plain
  Sealed-file path plain bytes n r s = record {
    bytes = bytes;
    read = λ i. (r i, read_file-bytes os P path w bytes n r i);
    is_sealed = s;
  }

  pub from_main :
      (plain : Bytes)
      → ready? mb e ≢ none
      → Sealed main_file plain
      → retrieved ≡ (success, plain, w)
  unfolding retrieve_main
  from_main plain r s =
      rw (s.read, decrypt-sealed mb L plain key [] s.bytes [] e s.is_sealed r, is_success-success)

  pub to_backup :
      (is_success main_read.0 && is_success (opened_from main_read.1).0) ≡ false
      → retrieved ≡ retrieve_backup os mb main_file backup_file (is_success main_read.0) key e w
  unfolding retrieve_main
  to_backup h = rw h

  pub from_backup :
      (plain : Bytes)
      → ready? mb e ≢ none
      → (s : Sealed backup_file plain) (was_read : Bool)
      → retrieve_backup os mb main_file backup_file was_read key e w
        ≡ (success, plain, restore_main os main_file s.bytes was_read w)
  unfolding retrieve_backup
  from_backup plain r s was_read =
      rw (s.read, decrypt-sealed mb L plain key [] s.bytes [] e s.is_sealed r, is_success-success)

  sealed_by :
      (path : Str)
      → (read_file os path w).0 ≡ success
      → (opened_from (read_file os path w).1).0 ≡ success
      → Sealed path (opened_from (read_file os path w).1).1
  sealed_by path r d = record {
    bytes = (read_file os path w).1;
    read = λ i. (r i, (read_file os path w).1);
    is_sealed = decrypt-IsSealed mb L (read_file os path w).1 key [] [] e d;
  }

  backup-sound :
      (was_read : Bool)
      → let r = retrieve_backup os mb main_file backup_file was_read key e w in
        r.0 ≡ success → Sealed backup_file r.1
  unfolding retrieve_backup
  backup-sound was_read h =
      let r : backup_read.0 ≡ success = ground (arith, is_success_iff backup_read.0) in
      let d : (opened_from backup_read.1).0 ≡ success =
        ground (arith, is_success_iff (opened_from backup_read.1).0) in
      rw (r, d, is_success-success) (sealed_by backup_file r d)

  -- If the two stages of `retrieveData` report success, the output is data that was sealed under
  -- the key, in the main file or in the backup as reading that file reports it.
  pub retrieve_main-sound :
      retrieved.0 ≡ success → Sealed main_file retrieved.1 ⊎ Sealed backup_file retrieved.1
  retrieve_main-sound h =
      elim (Bool-cases (is_success main_read.0 && is_success (opened_from main_read.1).0)) [
        | inl e' ↦
            let same : retrieved ≡ (success, (opened_from main_read.1).1, w) =
              unfold retrieve_main in rw e' in
            rw same (
              inl (
                sealed_by main_file (ground (arith, is_success_iff main_read.0))
                  (ground (arith, is_success_iff (opened_from main_read.1).0))))
        | inr e' ↦ rw (to_backup e') (inr (backup-sound _ (rw (to_backup e') at h)))
      ]

  -- If the two stages of `retrieveData` report an error, the file system is as it was, and the
  -- output is empty unless the library refuses the key.
  pub retrieve_main-failed :
      retrieved.0 ≢ success → (retrieved.2 ≡ w) × ((retrieved.1 ≡ []) ⊎ (mb.gcm_setkey key ≡ false))
  unfolding retrieve_main retrieve_backup
  retrieve_main-failed h = ground (
    arith,
    decrypt-failed mb L backup_read.1 key [] e,
    is_success_iff backup_read.0,
    is_success_iff (opened_from backup_read.1).0,
    is_success-success,
  )
