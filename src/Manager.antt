-- ===== src/Manager.antt =====
-- `SecureStorageManager` (src/SecureStorageManager.h, src/SecureStorageManager.cpp): the object that an
-- application holds. `none` is the use of a null pointer or the termination of the program. Log lines are
-- left out.
pub mod Construction
pub mod Operations
pub mod RoundTrip
pub mod Client
use secure_storage.Base.{
  ℕ, Bool, true, false, not, Option, none, some, List, [], ◌∷◌, if◌then◌else◌,
}
use secure_storage.Base.Text.{Str, Bytes}
use secure_storage.Error.{Errc, not_initialized}
use secure_storage.Os.{Os}
use secure_storage.Inotify.{Inotify}
use secure_storage.Crypto.{Mbedtls}
use secure_storage.Store
use secure_storage.Store.{SecureStore, secure_store}
use secure_storage.Watcher.{Watcher, watcher, start, stop, add_watch}

module _ (mb : Mbedtls) where
  -- `SecureStorageManagerImpl`: a null pointer is `none`.
  pub record ManagerImpl : Type 0 where
    pub secure_store_instance : Option (SecureStore mb)
    pub file_watcher_instance : Option Watcher
    pub is_manager_initialized : Bool
    pub is_file_watcher_active : Bool

  -- The members as the initialiser list sets them.
  abbrev pub no_parts : ManagerImpl
  no_parts = record {
    secure_store_instance = none;
    file_watcher_instance = none;
    is_manager_initialized = false;
    is_file_watcher_active = false;
  }

  -- `SecureStorageManager`: `m_impl` is null in an object that was moved from.
  pub record Manager : Type 0 where
    pub impl : Option ManagerImpl

  unfoldable pub is_initialized : Manager → Bool
  is_initialized m = elim m.impl [ none ↦ false | some i ↦ i.is_manager_initialized ]

  unfoldable pub is_file_watcher_active : Manager → Bool
  is_file_watcher_active m = elim m.impl [ none ↦ false | some i ↦ i.is_file_watcher_active ]

  -- `m_impl->secureStoreInstance`
  abbrev pub store_of : Manager → Option (SecureStore mb)
  store_of m = elim m.impl [ none ↦ none | some i ↦ i.secure_store_instance ]

  -- The manager with another state of its store.
  unfoldable pub with_store : SecureStore mb → Manager → Manager
  with_store s m = elim m.impl [
    | none ↦ m
    | some i ↦ record { impl = some (record i { secure_store_instance = some s }) }
  ]

  -- The move constructor: the new object, and what is left of the other.
  unfoldable pub moved : Manager → Manager × Manager
  moved other = (other, record { impl = none })

-- What the thread of the watcher does while `stop` waits for it is `monitor_ends`.
module _ (os : Os) (ino : Inotify os.World) (monitor_ends : Watcher → os.World → Watcher × os.World)
    (mb : Mbedtls) where
  open os use {World}

  -- `fileWatcherInstance.reset()`: the destructor of the watcher calls `stop`.
  unfoldable pub reset_watcher : Option Watcher → World → World
  reset_watcher none w = w
  reset_watcher (some fw) w = (stop os ino monitor_ends fw w).1

  -- The end of the constructor: the watcher is made, started and given the root path.
  unfoldable pub watch_root : Str → ManagerImpl mb → World → Option (ManagerImpl mb × World)
  watch_root root i w = elim (start os ino watcher w) [
    | none ↦ none
    | some (started, fw, w1) ↦
        if not started
        then some (record i { file_watcher_instance = none }, reset_watcher (some fw) w1)
        else let (added, fw2, w2) = add_watch os ino root fw w1 in
          if added
          then some
              (record i { file_watcher_instance = some fw2; is_file_watcher_active = true }, w2)
          else let (fw3, w3) = stop os ino monitor_ends fw2 w2 in
            some (record i { file_watcher_instance = none }, reset_watcher (some fw3) w3)
  ]

  -- The constructor of `SecureStorageManagerImpl`, with the entropy that the system gives.
  unfoldable pub manager_impl : Str → Str → mb.Rng → World → Option (ManagerImpl mb × World)
  manager_impl root_storage_path device_serial_number entropy w =
      let (s, w1) = secure_store os mb root_storage_path device_serial_number entropy w in
      if s.initialized
      then watch_root root_storage_path
          (record (no_parts mb) { secure_store_instance = some s; is_manager_initialized = true })
          w1
      else some (no_parts mb, w1)

  unfoldable pub manager : Str → Str → mb.Rng → World → Option (Manager mb × World)
  manager root_storage_path device_serial_number entropy w =
      elim (manager_impl root_storage_path device_serial_number entropy w) [
        | none ↦ none
        | some (i, w') ↦ some (record { impl = some i }, w')
      ]

  -- The destructor of `SecureStorageManagerImpl`: the watcher is stopped, and then reset.
  unfoldable pub destroy_impl : ManagerImpl mb → World → World
  destroy_impl i w = elim i.file_watcher_instance [
    | none ↦ w
    | some fw ↦ let (fw', w') = stop os ino monitor_ends fw w in reset_watcher (some fw') w'
  ]

  -- The destructor of `SecureStorageManager`, which destroys what `m_impl` owns.
  unfoldable pub destroy : Manager mb → World → World
  destroy m w = elim m.impl [ none ↦ w | some i ↦ destroy_impl i w ]

  -- The move assignment of another object: this object, the other one, and the world.
  unfoldable pub move_assigned : Manager mb → Manager mb → World → Manager mb × Manager mb × World
  move_assigned this other w = (other, record { impl = none }, destroy this w)

module _ (os : Os) (mb : Mbedtls) where
  open os use {World}

  unfoldable pub store_data : Str → Bytes → Manager mb → World → Option (Errc × Manager mb × World)
  store_data data_id plain_data m w =
      if not (is_initialized mb m) then some (not_initialized, m, w) else elim (store_of mb m) [
        | none ↦ none
        | some s ↦ elim (Store.store_data os mb data_id plain_data s w) [
          | none ↦ none
          | some (code, s', w') ↦ some (code, with_store mb s' m, w')
        ]
      ]

  unfoldable pub retrieve_data : Str → Manager mb → World → Option (Errc × Bytes × World)
  retrieve_data data_id m w =
      if not (is_initialized mb m)
      then some (not_initialized, [], w)
      else elim (store_of mb m) [ none ↦ none | some s ↦ Store.retrieve_data os mb data_id s w ]

  unfoldable pub delete_data : Str → Manager mb → World → Option (Errc × World)
  delete_data data_id m w =
      if not (is_initialized mb m) then some (not_initialized, w) else elim (store_of mb m) [
        | none ↦ none
        | some s ↦ some (Store.delete_data os mb data_id s w)
      ]

  unfoldable pub data_exists : Str → Manager mb → World → Option Bool
  data_exists data_id m w = if not (is_initialized mb m) then some false else elim (store_of mb m) [
    | none ↦ none
    | some s ↦ some (Store.data_exists os mb data_id s w)
  ]

  unfoldable pub list_data_ids : Manager mb → World → Option (Errc × List Str)
  list_data_ids m w =
      if not (is_initialized mb m)
      then some (not_initialized, [])
      else elim (store_of mb m) [ none ↦ none | some s ↦ some (Store.list_data_ids os mb s w) ]
