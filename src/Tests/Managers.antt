-- ===== src/Tests/Managers.antt =====
-- The theorems on `SecureStorageManager`, and on runs of the store, at concrete objects.
use secure_storage.Base.{◌≡◌, ◌≢◌, ◌↔◌, refl, inr, true, false, none, some, [], length, ◌+◌}
use secure_storage.Base.Text.{Str, codes, has_char}
use secure_storage.Error.{Errc, success}
use secure_storage.Os.Posix.{IsPosix, device}
use secure_storage.Os.Memory.{World, memory_os, place, lookup}
use secure_storage.Os.Memory.Laws.{memory-IsPosix}
use secure_storage.FileUtil.{create_directories}
use secure_storage.Inotify.Toy.{toy_inotify}
use secure_storage.Crypto.Encryptor.{encrypt, decrypt}
use secure_storage.Crypto.Encryptor.Decrypting.{encrypt-length}
use secure_storage.Crypto.Toy.{toy, toy-IsLawful}
use secure_storage.Naming.Roles.{temp_temp, entry}
use secure_storage.Store
use secure_storage.Store.{
  SecureStore, back_up, restore_backup, replace_main, store_encrypted, retrieve_main,
  retrieve_backup,
}
use secure_storage.Store.Lifecycle.{with_separator, derived}
use secure_storage.Watcher.{Watcher}
use secure_storage.Manager.{
  Manager, ManagerImpl, manager, manager_impl, is_initialized, store_data, retrieve_data,
  delete_data, data_exists, list_data_ids,
}
use secure_storage.Manager.{with_store}
use secure_storage.Manager.Construction.{
  IsManaged, IsManagedOrMoved, new_store, ActiveWatcher, manager-IsManaged,
  is_initialized-manager_iff,
}
use secure_storage.Manager.Operations.{core, operations_lem, store_data_lem}
use secure_storage.Tests.Stores.{used_store, with_data, stores}
use secure_storage.Tests.Values.{
  key, top, an_id, some_data, an_encryptor, a_store, a_store-IsReady, world_of,
}

-- A monitor thread that ends without an event.
abbrev ends_at_once : Watcher → World → Watcher × World
ends_at_once fw w = (fw, w)

abbrev pub here : World
here = world_of []

manager-IsManaged_example :
    (i : ManagerImpl toy) × (w' : World) × (manager memory_os toy_inotify ends_at_once toy top
        (codes "S1")
        7
        here
      ≡ some (record { impl = some i }, w'))
    × IsManaged toy i
    × (i.is_manager_initialized
        ≡ (new_store memory_os toy_inotify ends_at_once toy toy-IsLawful top
            (codes "S1")
            7
            here).0.initialized)
    × ActiveWatcher memory_os toy_inotify ends_at_once toy toy-IsLawful top (codes "S1") 7 here i
manager-IsManaged_example =
    manager-IsManaged memory_os toy_inotify ends_at_once toy toy-IsLawful top (codes "S1") 7 here

-- With an empty serial number, the manager has no store.
abbrev no_manager : Manager toy
no_manager = record {
  impl = some (record {
    secure_store_instance = none;
    file_watcher_instance = none;
    is_manager_initialized = false;
    is_file_watcher_active = false;
  });
}

abbrev no_text : Str
no_text = []

no_manager-made :
    manager memory_os toy_inotify ends_at_once toy top no_text 7 here ≡ some (no_manager, here)
unfolding manager manager_impl Store.secure_store
no_manager-made = refl

is_initialized-manager_iff_example : (is_initialized toy no_manager ≡ true) ↔ (
    (top ≢ [])
    × (no_text ≢ [])
    × ((create_directories memory_os (with_separator top) here).0 ≡ success)
    × ((derived memory_os toy toy-IsLawful no_text).0 ≡ success))
is_initialized-manager_iff_example =
    is_initialized-manager_iff memory_os toy_inotify ends_at_once toy toy-IsLawful top no_text 7
      here no_manager here no_manager-made

abbrev pub a_manager : Manager toy
a_manager = record {
  impl = some (record {
    secure_store_instance = some a_store;
    file_watcher_instance = none;
    is_manager_initialized = true;
    is_file_watcher_active = false;
  });
}

pub a_manager-IsManaged : IsManagedOrMoved toy a_manager
a_manager-IsManaged = inr (_, refl, record { store = inr (refl, (a_store, refl, a_store-IsReady)) })

operations_lem_example :
    (retrieve_data memory_os toy an_id a_manager here
      ≡ Store.retrieve_data memory_os toy an_id a_store here)
    × (delete_data memory_os toy an_id a_manager here
        ≡ some (Store.delete_data memory_os toy an_id a_store here))
    × (data_exists memory_os toy an_id a_manager here
        ≡ some (Store.data_exists memory_os toy an_id a_store here))
    × (list_data_ids memory_os toy a_manager here
        ≡ some (Store.list_data_ids memory_os toy a_store here))
operations_lem_example = operations_lem memory_os toy a_manager here a_manager-IsManaged an_id

store_data_lem_example :
    (e : Errc) × (m' : Manager toy) × (w' : World) × (store_data memory_os toy an_id some_data
        a_manager here
      ≡ some (e, m', w'))
    × (Store.store_data memory_os toy an_id some_data a_store here ≡ some (e, core toy m', w'))
    × IsManagedOrMoved toy m'
store_data_lem_example =
    store_data_lem memory_os toy a_manager here a_manager-IsManaged an_id some_data

encrypt-length_example :
    ((encrypt toy some_data key [] [] an_encryptor).0 ≡ success
      → length (encrypt toy some_data key [] [] an_encryptor).1 ≡ 30)
    × ((decrypt toy some_data key [] [] an_encryptor).0 ≡ success
        → 2 ≡ 28 + length (decrypt toy some_data key [] [] an_encryptor).1)
encrypt-length_example = encrypt-length toy toy-IsLawful some_data key [] [] an_encryptor

abbrev pub after_manager : Manager toy
after_manager = record {
  impl = some (record {
    secure_store_instance = some used_store;
    file_watcher_instance = none;
    is_manager_initialized = true;
    is_file_watcher_active = false;
  });
}

pub manager_stores :
    store_data memory_os toy an_id some_data a_manager here
    ≡ some (success, after_manager, with_data)
unfolding store_data is_initialized with_store
manager_stores = rw (stores, store_data) refl

pub no_device : (IsPosix.node memory-IsPosix) here (entry top an_id temp_temp) ≢ some device
unfolding memory-IsPosix place lookup has_char
no_device e = cc
