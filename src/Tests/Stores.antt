-- ===== src/Tests/Stores.antt =====
-- The theorems on `SecureStore` at concrete stores and file systems.
use secure_storage.Base.{ℕ, ◌≡◌, ◌≢◌, refl, ◌⊎◌, inl, true, none, some, [], ◌∷◌}
use secure_storage.Base.Text.{Str, codes, has_char, str_eq, find_last}
use secure_storage.Error.{Errc, success, file_rename_failed, is_success}
use secure_storage.Os.Posix.{IsPosix, file, folder, device, contents?}
use secure_storage.Os.Memory.{World, memory_os, place, lookup, del}
use secure_storage.Os.Memory.Laws.{memory-IsPosix}
use secure_storage.FileUtil.{
  get_directory, path_exists, delete_file, read_stream, read_file, ensure_directory,
  finish_temporary, fill_temporary, write_temporary, sync_directory, commit_temporary,
  write_and_rename, atomic_write_file,
}
use secure_storage.Crypto.Encryptor.{encrypt, ready?, generate_iv, seal_with}
use secure_storage.Crypto.Toy.{toy, toy-IsLawful}
use secure_storage.Naming.{
  validate_data_id, has_dots, get_data_file_path, get_backup_file_path, get_temp_file_path,
}
use secure_storage.Naming.Roles.{Named, Role, main, backup, temp_temp, entry}
use secure_storage.Store.{
  SecureStore, back_up, restore_backup, replace_main, store_encrypted, store_data, retrieve_data,
}
use secure_storage.Os.Crash.{mortal}
use secure_storage.Store.Crash.{Survives, store_data_crash}
use secure_storage.Store.RoundTrip.{retrieve_data-store_data, store_data-keeps, store_data_others}
use secure_storage.Tests.Values.{
  valid_id, top, top-IsBase, an_id, valid_other, other_id, other_id-differs, some_data, a_store,
  a_store-IsReady, sealed_data, world_of,
}

-- The store after one use of its generator.
abbrev pub used_store : SecureStore toy
used_store = record a_store {
  encryptor = some (record { impl = some (record { initialized = true; rng = 8 }) });
}

abbrev pub with_data : World
with_data = world_of ((codes "a.enc", file sealed_data) ∷ [])

nothing_there :
    (IsPosix.node memory-IsPosix) (world_of []) (entry top an_id temp_temp) ≢ some device
unfolding memory-IsPosix place lookup has_char
nothing_there e = cc

pub stores :
    store_data memory_os toy an_id some_data a_store (world_of [])
    ≡ some (success, used_store, with_data)
unfolding store_data store_encrypted back_up replace_main restore_backup atomic_write_file
    ensure_directory path_exists write_and_rename write_temporary fill_temporary finish_temporary
    commit_temporary sync_directory get_directory delete_file encrypt generate_iv ready? seal_with
    validate_data_id has_dots has_char is_success place lookup del str_eq find_last
    get_data_file_path get_backup_file_path get_temp_file_path
stores = refl

pub readable : (read_file memory_os (entry top an_id main) with_data).0 ≡ success
unfolding read_file read_stream place lookup str_eq has_char
readable = refl

retrieve_data-store_data_example :
    retrieve_data memory_os toy an_id used_store with_data ≡ some (success, some_data, with_data)
retrieve_data-store_data_example =
    retrieve_data-store_data memory_os memory-IsPosix toy toy-IsLawful an_id some_data a_store
      (world_of []) a_store-IsReady top-IsBase used_store with_data nothing_there stores readable

-- A directory in the place of the temporary file makes storing fail.
abbrev blocked : World
blocked = world_of ((codes "a.enc", file sealed_data) ∷ (codes "a.enc.tmp", folder) ∷ [])

held : (IsPosix.node memory-IsPosix) blocked (entry top an_id main) ≡ some (file sealed_data)
unfolding memory-IsPosix place lookup has_char str_eq
held = refl

store_fails :
    store_data memory_os toy an_id [] a_store blocked
    ≡ some (file_rename_failed, used_store, blocked)
unfolding store_data store_encrypted back_up replace_main restore_backup atomic_write_file
    ensure_directory path_exists write_and_rename write_temporary fill_temporary finish_temporary
    commit_temporary sync_directory get_directory delete_file encrypt generate_iv ready? seal_with
    validate_data_id has_dots has_char is_success place lookup del str_eq find_last
    get_data_file_path get_backup_file_path get_temp_file_path
store_fails = refl

store_data-keeps_example :
    ((IsPosix.node memory-IsPosix) blocked (entry top an_id main) ≡ some (file sealed_data))
    ⊎ (((IsPosix.node memory-IsPosix) blocked (entry top an_id main) ≡ none)
        × ((IsPosix.node memory-IsPosix) blocked (entry top an_id backup)
            ≡ some (file sealed_data)))
store_data-keeps_example =
    store_data-keeps memory_os memory-IsPosix toy toy-IsLawful an_id [] a_store blocked
      a_store-IsReady top-IsBase sealed_data file_rename_failed used_store blocked valid_id.1
      (inl held) store_fails (λ e. cc)

store_data_others_example :
    contents? ((IsPosix.node memory-IsPosix) with_data (entry top other_id main))
    ≡ contents? ((IsPosix.node memory-IsPosix) (world_of []) (entry top other_id main))
store_data_others_example =
    store_data_others memory_os memory-IsPosix toy toy-IsLawful an_id some_data a_store
      (world_of []) a_store-IsReady top-IsBase other_id main success used_store with_data valid_id.1
      valid_other other_id-differs stores

no_device_there : (IsPosix.node memory-IsPosix) blocked (entry top an_id temp_temp) ≢ some device
unfolding memory-IsPosix place lookup has_char str_eq
no_device_there e = cc

-- The process dies before its fourth call.
store_data_crash_example :
    (r : Errc × SecureStore toy × (World × ℕ)) × (store_data
        (mortal memory_os)
        toy
        an_id
        []
        a_store
        (blocked, 3)
      ≡ some r)
    × Survives memory_os memory-IsPosix toy toy-IsLawful an_id [] a_store blocked a_store-IsReady
        top-IsBase sealed_data r.2.0
    × ((other : Str) (role : Role)
        → Named other
        → other ≢ an_id
        → contents? ((IsPosix.node memory-IsPosix) r.2.0 (entry top other role))
          ≡ contents? ((IsPosix.node memory-IsPosix) blocked (entry top other role)))
store_data_crash_example =
    store_data_crash memory_os memory-IsPosix toy toy-IsLawful an_id [] a_store blocked
      a_store-IsReady top-IsBase sealed_data 3 valid_id.1 no_device_there (inl held)
