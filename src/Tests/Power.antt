-- ===== src/Tests/Power.antt =====
-- Storing on a disk that loses its power.
use secure_storage.Base.{ℕ, ◌≡◌, ◌≢◌, refl, ◌∙◌, ◌⊎◌, inl, some, [], ◌++◌, ◌∷◌}
use secure_storage.Base.Text.{Str, Bytes, find_last, has_char, str_eq}
use secure_storage.Error.{Errc, is_success}
use secure_storage.Os.Posix.{IsPosix, file, folder, device}
use secure_storage.Os.Crash.{mortal}
use secure_storage.Os.Durable.{IsDurable}
use secure_storage.Os.Memory.{World, memory_os, put, place, lookup}
use secure_storage.Os.Memory.Disk.{Settled, Lossy, contents-Lossy, memory-IsDurable}
use secure_storage.Os.Memory.Laws.{memory-IsPosix}
use secure_storage.Crypto.Encryptor.Laws.{IsSealed}
use secure_storage.Crypto.Toy.{toy, toy-IsLawful}
use secure_storage.Naming.Roles.{main, backup, temp_temp, entry}
use secure_storage.Store.{SecureStore, store_data}
use secure_storage.Store.Power.{Holds, IsSafe}
use secure_storage.FileUtil.{
  abandon, atomic_write_file, ensure_directory, fill_temporary, finish_temporary, get_directory,
  path_exists, temp_file_util_suffix, write_and_rename, write_temporary,
}
use secure_storage.Naming.Roles.{suffix, file-IsName}
use secure_storage.Store.Power.Writing.{atomic_write_file-Loss}
use secure_storage.Store.Power.Storing.{store_data-Loss}
use secure_storage.Tests.Stores.{with_data}
use secure_storage.Tests.Values.{
  valid_id, top, top-IsBase, key, an_id, sealed_data, a_store, a_store-IsReady,
}

-- The contents that the id has.
abbrev Current : Bytes → Type 0
Current bytes = bytes ≡ sealed_data

holds : (IsPosix.node memory-IsPosix) with_data (entry top an_id main) ≡ some (file sealed_data)
unfolding memory-IsPosix place lookup has_char str_eq
holds = refl

no_device : (IsPosix.node memory-IsPosix) with_data (entry top an_id temp_temp) ≢ some device
unfolding memory-IsPosix place lookup has_char str_eq
no_device e = cc

settled : (r : Str) → Settled with_data r
settled r name e = cc e

with_data-IsSafe :
    IsSafe memory_os memory-IsPosix memory-IsDurable
      (entry top an_id main)
      (entry top an_id backup)
      (Holds Current)
      with_data
unfolding memory-IsDurable
with_data-IsSafe = record {
  now = (sealed_data, refl, inl holds);
  main_synced = λ n. settled (entry top an_id main);
  backup_synced = λ n. settled (entry top an_id backup);
  losses = λ w' l. (
    sealed_data,
    refl,
    inl ((l (entry top an_id main)).1 (settled (entry top an_id main)) ∙ holds),
  );
}

-- The power is lost when the main file has been moved to the backup.
store_data-Loss_example :
    (r : Errc × SecureStore toy × (World × ℕ)) × (store_data
        (mortal memory_os)
        toy
        an_id
        []
        a_store
        (with_data, 7)
      ≡ some r)
    × ((v : World)
        → (IsDurable.Loss memory-IsDurable) r.2.0 v
        → Holds
            (λ bytes. Current bytes ⊎ IsSealed toy toy-IsLawful [] key [] bytes)
            ((IsPosix.node memory-IsPosix) v (entry top an_id main))
            ((IsPosix.node memory-IsPosix) v (entry top an_id backup)))
unfolding memory-IsDurable
store_data-Loss_example =
    store_data-Loss memory_os memory-IsPosix memory-IsDurable toy toy-IsLawful an_id [] a_store
      with_data a_store-IsReady top-IsBase Current 7 valid_id.1 tt no_device with_data-IsSafe

abbrev name : Str
name = an_id ++ suffix main

there : (IsPosix.node memory-IsPosix) with_data (get_directory (top ++ name)) ≡ some folder
unfolding memory-IsPosix get_directory place has_char find_last
there = refl

no_device_beside :
    (IsPosix.node memory-IsPosix) with_data ((top ++ name) ++ temp_file_util_suffix) ≢ some device
unfolding memory-IsPosix place lookup has_char str_eq
no_device_beside e = cc

-- The world at the death of the process, which is before `fsync`.
abbrev dead : World
dead = (atomic_write_file (mortal memory_os) (top ++ name) (1 ∷ []) (with_data, 2)).1.0

-- The disk has no bytes of the temporary file.
abbrev after_loss : World
after_loss = record dead { nodes = put (name ++ temp_file_util_suffix) (file []) dead.nodes }

lost : Lossy dead after_loss
unfolding abandon atomic_write_file write_and_rename write_temporary fill_temporary finish_temporary
    ensure_directory path_exists is_success get_directory find_last place lookup has_char str_eq
lost = contents-Lossy dead (name ++ temp_file_util_suffix) [] refl (λ k. cc k)

-- The file is written again, and the power is lost before `fsync`: the disk may have lost the bytes.
atomic_write_file-Loss_example :
    ((IsPosix.node memory-IsPosix) after_loss (top ++ name) ≡ some (file sealed_data))
    ⊎ ((IsPosix.node memory-IsPosix) after_loss (top ++ name) ≡ some (file (1 ∷ [])))
unfolding memory-IsDurable
atomic_write_file-Loss_example =
    atomic_write_file-Loss memory_os memory-IsPosix memory-IsDurable top name top-IsBase
      (file-IsName an_id main valid_id) (1 ∷ []) with_data (λ n. n ≡ some (file sealed_data)) 2
      there tt no_device_beside holds (λ n. settled (top ++ name))
      (λ v l. (l (top ++ name)).1 (settled (top ++ name)) ∙ holds) after_loss lost
