-- ===== src/Store.antt =====
-- `SecureStore` (src/storage/SecureStore.h, src/storage/SecureStore.cpp). A method takes the object and
-- the world; `none` is the use of a null `m_encryptor`. Log lines are left out.
pub mod Shared
pub mod Steps
pub mod Shifts
pub mod Saving
pub mod Retrieving
pub mod Lifecycle
pub mod RoundTrip
pub mod Fallback
pub mod Deleting
pub mod Tracing
pub mod Listing
pub mod Refinement
pub mod Crash
pub mod Power
use secure_storage.Base.{
  ℕ, Bool, true, false, not, ◌&&◌, ◌||◌, Option, none, some, List, [], ◌∷◌, ◌++◌, if◌then◌else◌,
}
use secure_storage.Base.Text.{c_str, Str, Bytes, empty, back_is, is_separator}
use secure_storage.Error.{
  Errc, success, not_initialized, file_rename_failed, data_not_found, is_success,
}
use secure_storage.Os.{Os}
use secure_storage.FileUtil.{
  atomic_write_file, read_file, delete_file, path_exists, create_directories, list_directory,
}
use secure_storage.Crypto.{Mbedtls}
use secure_storage.Crypto.KeyProvider.{
  KeyProvider, key_provider, get_encryption_key, hkdf_salt_default, hkdf_info_default,
}
use secure_storage.Crypto.Encryptor.{
  Encryptor, encryptor, encrypt, decrypt, default_seed, aes_gcm_key_size_bytes,
}
use secure_storage.Naming.{
  validate_data_id, get_data_file_path, get_backup_file_path, get_temp_file_path, ids_of_files,
  sort,
}

module _ (os : Os) where
  -- Step 2 of `storeData`: an old backup is deleted and the main file is moved to the backup; a
  -- failure of either is only logged.
  unfoldable pub back_up : Str → Str → os.World → os.World
  back_up main_file backup_file w =
      if path_exists os w main_file
      then (let w' = if path_exists os w backup_file then (delete_file os backup_file w).1 else w in
          (os.rename w' (c_str main_file) (c_str backup_file)).1)
      else w

  -- The attempt to restore the backup after a failed step 3.
  unfoldable pub restore_backup : Str → Str → os.World → os.World
  restore_backup main_file backup_file w =
      if path_exists os w backup_file && not (path_exists os w main_file)
      then (os.rename w (c_str backup_file) (c_str main_file)).1
      else w

  -- Step 3 of `storeData`: the temporary file becomes the main file.
  unfoldable pub replace_main : Str → Str → Str → os.World → Errc × os.World
  replace_main main_file backup_file temp_file w =
      let (moved, w') = os.rename w (c_str temp_file) (c_str main_file) in
      if moved then (success, w') else (
        file_rename_failed,
        (delete_file os temp_file (restore_backup main_file backup_file w')).1,
      )

  -- `storeData` from step 1 on.
  unfoldable pub store_encrypted : Str → Str → Str → Bytes → os.World → Errc × os.World
  store_encrypted main_file backup_file temp_file encrypted_data w =
      let (write_err, w1) = atomic_write_file os temp_file encrypted_data w in
      if not (is_success write_err)
      then (write_err, (delete_file os temp_file w1).1)
      else replace_main main_file backup_file temp_file (back_up main_file backup_file w1)

  -- The restoration of the main file from the data of the backup.
  unfoldable pub restore_main : Str → Bytes → Bool → os.World → os.World
  restore_main main_file encrypted_data main_was_read w =
      let w' = if main_was_read then (delete_file os main_file w).1 else w in
      (atomic_write_file os main_file encrypted_data w').1

  -- `deleteData` past its checks.
  unfoldable pub delete_files : Str → Str → os.World → Errc × os.World
  delete_files main_file backup_file w =
      let main_existed = path_exists os w main_file in
      let backup_existed = path_exists os w backup_file in
      let (main_err, w1) = delete_file os main_file w in
      let (backup_err, w2) = delete_file os backup_file w1 in
      if not (is_success main_err) && main_existed
      then (main_err, w2)
      else if not (is_success backup_err) && backup_existed
      then (backup_err, w2)
      else (success, w2)

module _ (mb : Mbedtls) where
  pub record SecureStore : Type 0 where
    pub root_storage_path : Str
    pub key_provider : Option KeyProvider
    pub encryptor : Option (Encryptor mb)
    pub master_key : Bytes
    pub initialized : Bool

  -- The members as the initialiser list sets them.
  abbrev pub blank : Str → SecureStore
  blank root = record {
    root_storage_path = root;
    key_provider = none;
    encryptor = none;
    master_key = [];
    initialized = false;
  }

  -- The end of the constructor, once the root directory is there.
  unfoldable pub initialize : Str → Str → mb.Rng → SecureStore
  initialize root device_serial_number entropy =
      let kp = key_provider device_serial_number hkdf_salt_default hkdf_info_default in
      let (key_err, key) = get_encryption_key mb kp [] aes_gcm_key_size_bytes in
      if is_success key_err
      then record {
        root_storage_path = root;
        key_provider = some kp;
        encryptor = some (encryptor mb default_seed entropy);
        master_key = key;
        initialized = true;
      }
      else record (blank root) { master_key = key }

module _ (os : Os) (mb : Mbedtls) where
  -- The constructor, with the entropy that the system gives.
  unfoldable pub secure_store : Str → Str → mb.Rng → os.World → SecureStore mb × os.World
  secure_store root_storage_path device_serial_number entropy w =
      if empty root_storage_path || empty device_serial_number
      then (blank mb root_storage_path, w)
      else let root =
          if back_is is_separator root_storage_path
          then root_storage_path
          else root_storage_path ++ b'/' ∷ [] in
        let (dir_err, w') = create_directories os root w in
        if is_success dir_err
        then (initialize mb root device_serial_number entropy, w')
        else (blank mb root, w')

  unfoldable pub store_data :
      Str → Bytes → SecureStore mb → os.World → Option (Errc × SecureStore mb × os.World)
  store_data data_id plain_data s w =
      if not s.initialized
      then some (not_initialized, s, w)
      else if not (is_success (validate_data_id data_id))
      then some (validate_data_id data_id, s, w)
      else elim s.encryptor [
        | none ↦ none
        | some e ↦
            let (enc_err, encrypted_data, e') = encrypt mb plain_data s.master_key [] [] e in
            let s' = record s { encryptor = some e' } in
            if not (is_success enc_err)
            then some (enc_err, s', w)
            else let root = s.root_storage_path in
              let (code, w') =
                store_encrypted os (get_data_file_path root data_id)
                  (get_backup_file_path root data_id) (get_temp_file_path root data_id)
                  encrypted_data w in
              some (code, s', w')
      ]

  -- Stage 2 of `retrieveData`.
  unfoldable pub retrieve_backup :
      Str → Str → Bool → Bytes → Encryptor mb → os.World → Errc × Bytes × os.World
  retrieve_backup main_file backup_file main_was_read key e w =
      let (read_err, encrypted_data) = read_file os backup_file w in
      if not (is_success read_err)
      then (data_not_found, [], w)
      else let (dec_err, plain) = decrypt mb encrypted_data key [] [] e in
        if not (is_success dec_err)
        then (dec_err, plain, w)
        else (success, plain, restore_main os main_file encrypted_data main_was_read w)

  -- Stage 1 of `retrieveData`, and stage 2 if it fails.
  unfoldable pub retrieve_main :
      Str → Str → Bytes → Encryptor mb → os.World → Errc × Bytes × os.World
  retrieve_main main_file backup_file key e w =
      let (read_err, encrypted_data) = read_file os main_file w in
      let (dec_err, plain) = decrypt mb encrypted_data key [] [] e in
      if is_success read_err && is_success dec_err
      then (success, plain, w)
      else retrieve_backup main_file backup_file (is_success read_err) key e w

  -- The code, the output vector, which the method clears at once, and the world.
  unfoldable pub retrieve_data : Str → SecureStore mb → os.World → Option (Errc × Bytes × os.World)
  retrieve_data data_id s w =
      if not s.initialized
      then some (not_initialized, [], w)
      else if not (is_success (validate_data_id data_id))
      then some (validate_data_id data_id, [], w)
      else elim s.encryptor [
        | none ↦ none
        | some e ↦
            let root = s.root_storage_path in
            some (
              retrieve_main (get_data_file_path root data_id) (get_backup_file_path root data_id)
                s.master_key e w)
      ]

  unfoldable pub delete_data : Str → SecureStore mb → os.World → Errc × os.World
  delete_data data_id s w =
      if not s.initialized
      then (not_initialized, w)
      else if not (is_success (validate_data_id data_id))
      then (validate_data_id data_id, w)
      else let root = s.root_storage_path in
        delete_files os (get_data_file_path root data_id) (get_backup_file_path root data_id) w

  unfoldable pub data_exists : Str → SecureStore mb → os.World → Bool
  data_exists data_id s w =
      if not s.initialized
      then false
      else if not (is_success (validate_data_id data_id))
      then false
      else path_exists os w (get_data_file_path s.root_storage_path data_id)
        || path_exists os w (get_backup_file_path s.root_storage_path data_id)

  unfoldable pub list_data_ids : SecureStore mb → os.World → Errc × List Str
  list_data_ids s w =
      if not s.initialized
      then (not_initialized, [])
      else let (list_err, all_files) = list_directory os s.root_storage_path w in
        if not (is_success list_err)
        then (list_err, [])
        else (success, sort (ids_of_files all_files))
