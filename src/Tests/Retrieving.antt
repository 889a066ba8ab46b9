-- ===== src/Tests/Retrieving.antt =====
-- The theorems on retrieving, deleting and listing at concrete stores and file systems.
use mathlib.Core.List.{Memᴰ}
use secure_storage.Base.{◌≡◌, ◌≢◌, refl, ◌⊎◌, true, false, none, some, [], ◌∷◌, ◌&&◌, if◌then◌else◌}
use secure_storage.Base.Text.{Str, Bytes, codes, has_char, str_eq, back_is}
use secure_storage.Error.{Errc, success, file_remove_failed, is_success}
use secure_storage.Os.Posix.{IsPosix, file, device, contents?}
use secure_storage.Os.Memory.{World, memory_os, place, lookup}
use secure_storage.Os.Memory.Laws.{memory-IsPosix}
use secure_storage.FileUtil.{
  delete_file, read_stream, read_file, atomic_write_file, entry_path, regular_files, list_directory,
}
use secure_storage.FileUtil.Listing.{IsFile}
use secure_storage.Crypto.Encryptor.{decrypt, ready?, open_parts}
use secure_storage.Crypto.Toy.{toy, toy-IsLawful}
use secure_storage.Naming.{
  validate_data_id, has_dots, ends_with, id_of_file, ids_of_files, insert, sort,
}
use secure_storage.Naming.Order.{IsAscending}
use secure_storage.Naming.Roles.{Named, Role, main, backup, temp, entry}
use secure_storage.Store.{retrieve_main, retrieve_backup, delete_data, data_exists, list_data_ids}
use secure_storage.Store.Fallback.{retrieve_main-fallback}
use secure_storage.Store.Retrieving.{Sealed, retrieve_main-sound, retrieve_main-failed}
use secure_storage.Store.Deleting.{delete_data_lem, delete_data_others}
use secure_storage.Store.Listing.{list_data_ids_iff}
use secure_storage.Tests.Values.{
  top, top-IsBase, an_id, valid_id, other_id, valid_other, an_id-differs, some_data, key,
  an_encryptor, a_store, a_store-IsReady, sealed_data, sealed_data-IsSealed, world_of,
}

abbrev at : Role → Str
at r = entry top an_id r

-- Only the backup is left.
abbrev only_backup : World
only_backup = world_of ((codes "a.enc.bak", file sealed_data) ∷ [])

abbrev fallback : Errc × Bytes × World
fallback = retrieve_main memory_os toy (at main) (at backup) key an_encryptor only_backup

is_ready : ready? toy an_encryptor ≢ none
unfolding ready?
is_ready e = cc

abbrev main_read : Errc × Bytes
main_read = read_file memory_os (at main) only_backup

main_fails :
    (is_success main_read.0 && is_success (decrypt toy main_read.1 key [] [] an_encryptor).0)
    ≡ false
unfolding is_success read_file place lookup str_eq has_char
main_fails = refl

backup_there : (IsPosix.node memory-IsPosix) only_backup (at backup) ≡ some (file sealed_data)
unfolding memory-IsPosix place lookup has_char str_eq
backup_there = refl

backup_read : (read_file memory_os (at backup) only_backup).0 ≡ success
unfolding read_file read_stream place lookup str_eq has_char
backup_read = refl

no_temp : (IsPosix.node memory-IsPosix) only_backup (at temp) ≢ some device
unfolding memory-IsPosix place lookup has_char str_eq
no_temp e = cc

retrieve_main-fallback_example :
    let (code, output, w') = fallback in
    let ready_world =
      if is_success main_read.0
      then (delete_file memory_os (at main) only_backup).1
      else only_backup in
    (code ≡ success)
    × (output ≡ some_data)
    × (contents? ((IsPosix.node memory-IsPosix) w' (at backup)) ≡ some sealed_data)
    × (((IsPosix.node memory-IsPosix) w' (at main) ≡ some (file sealed_data))
        ⊎ ((atomic_write_file memory_os (at main) sealed_data ready_world).0 ≢ success))
retrieve_main-fallback_example =
    retrieve_main-fallback memory_os memory-IsPosix toy toy-IsLawful top an_id top-IsBase valid_id
      key an_encryptor only_backup some_data sealed_data is_ready main_fails backup_there
      backup_read sealed_data-IsSealed no_temp

abbrev with_data : World
with_data = world_of ((codes "a.enc", file sealed_data) ∷ [])

retrieves :
    (retrieve_main memory_os toy (at main) (at backup) key an_encryptor with_data).0 ≡ success
unfolding retrieve_main read_file read_stream decrypt open_parts ready? is_success place lookup
    str_eq has_char
retrieves = refl

retrieve_main-sound_example :
    let r = retrieve_main memory_os toy (at main) (at backup) key an_encryptor with_data in
    Sealed memory_os memory-IsPosix toy toy-IsLawful
      (at main)
      (at backup)
      key
      an_encryptor
      with_data
      (at main)
      r.1
    ⊎ Sealed memory_os memory-IsPosix toy toy-IsLawful
        (at main)
        (at backup)
        key
        an_encryptor
        with_data
        (at backup)
        r.1
retrieve_main-sound_example =
    retrieve_main-sound memory_os memory-IsPosix toy toy-IsLawful (at main) (at backup) key
      an_encryptor with_data retrieves

-- A file that was cut, and no backup.
abbrev damaged : World
damaged = world_of ((codes "a.enc", file (0 ∷ [])) ∷ [])

damaged_fails :
    (retrieve_main memory_os toy (at main) (at backup) key an_encryptor damaged).0 ≢ success
unfolding retrieve_main retrieve_backup read_file read_stream decrypt open_parts ready? is_success
    place lookup str_eq has_char
damaged_fails e = cc

retrieve_main-failed_example :
    let r = retrieve_main memory_os toy (at main) (at backup) key an_encryptor damaged in
    (r.2 ≡ damaged) × ((r.1 ≡ []) ⊎ (toy.gcm_setkey key ≡ false))
retrieve_main-failed_example =
    retrieve_main-failed memory_os memory-IsPosix toy toy-IsLawful (at main) (at backup) key
      an_encryptor damaged damaged_fails

delete_data_lem_example :
    let (code, w') = delete_data memory_os toy an_id a_store with_data in
    ((code ≡ success) × (data_exists memory_os toy an_id a_store w' ≡ false))
    ⊎ ((code ≡ file_remove_failed) × (data_exists memory_os toy an_id a_store w' ≡ true))
delete_data_lem_example =
    delete_data_lem memory_os memory-IsPosix toy an_id a_store with_data a_store-IsReady top-IsBase
      valid_id

delete_data_others_example :
    (IsPosix.node memory-IsPosix) (delete_data memory_os toy other_id a_store with_data).1 (at main)
    ≡ (IsPosix.node memory-IsPosix) with_data (at main)
delete_data_others_example =
    delete_data_others memory_os memory-IsPosix toy other_id a_store with_data a_store-IsReady
      top-IsBase valid_other an_id main valid_id an_id-differs

lists : list_data_ids memory_os toy a_store with_data ≡ (success, an_id ∷ [])
unfolding list_data_ids list_directory regular_files entry_path ids_of_files id_of_file ends_with
    validate_data_id has_dots has_char sort insert is_success place lookup str_eq back_is
lists = refl

list_data_ids_iff_example :
    IsAscending (an_id ∷ [])
    × ((data_id : Str)
        → (Memᴰ data_id (an_id ∷ [])
            → Named data_id
              × IsFile ((IsPosix.node memory-IsPosix) with_data (entry top data_id main)))
          × ((IsPosix.reads_all memory-IsPosix) with_data top ≡ true
              → Named data_id
              → IsFile ((IsPosix.node memory-IsPosix) with_data (entry top data_id main))
              → Memᴰ data_id (an_id ∷ [])))
list_data_ids_iff_example =
    list_data_ids_iff memory_os memory-IsPosix toy a_store with_data a_store-IsReady top-IsBase
      (an_id ∷ []) lists
