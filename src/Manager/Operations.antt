-- ===== src/Manager/Operations.antt =====
-- The operations of `SecureStorageManager` against those of the `SecureStore` that it holds.
use secure_storage.Base.{◌≡◌, refl, ◌⊎◌, inl, inr, true, false, none, some, [], Option-cases}
use secure_storage.Base.Text.{Str, Bytes}
use secure_storage.Error.{Errc, not_initialized}
use secure_storage.Os.{Os}
use secure_storage.Crypto.{Mbedtls}
use secure_storage.Store
use secure_storage.Store.{SecureStore, blank}
use secure_storage.Store.Lifecycle.{IsReady, store_data-ready, ready_store-IsReady}
use secure_storage.Store.Lifecycle
use secure_storage.Manager.{
  Manager, is_initialized, store_of, with_store, store_data, retrieve_data, delete_data,
  data_exists, list_data_ids,
}
use secure_storage.Manager.Construction.{IsManagedOrMoved}

-- The store that stands for a manager: one that is not initialised, if the manager has none.
abbrev pub core : (mb : Mbedtls) → Manager mb → SecureStore mb
core mb m = elim (store_of mb m) [ none ↦ blank mb [] | some s ↦ s ]

module _ (mb : Mbedtls) (m : Manager mb) (managed : IsManagedOrMoved mb m) where
  abbrev pub NoStore : Type 0
  NoStore = (is_initialized mb m ≡ false) × (core mb m ≡ blank mb [])

  abbrev pub ReadyStore : Type 0
  ReadyStore =
      (is_initialized mb m ≡ true) × (store_of mb m ≡ some (core mb m)) × IsReady mb (core mb m)

  -- A manager has no store of its own, or one that is ready.
  pub manager-cases : NoStore ⊎ ReadyStore
  unfolding is_initialized
  manager-cases = elim managed [
    | inl moved ↦ inl (rw moved refl, rw moved refl)
    | inr (i, e, g) ↦ elim g.store [
      | inl (off, gone) ↦ inl (rw e off, rw (e, gone) refl)
      | inr (on, (s, held, ready)) ↦ inr (rw e on, rw (e, held) refl, rw (e, held) ready)
    ]
  ]

-- A manager that is initialised takes another store that is ready.
with_store-IsManaged :
    (mb : Mbedtls) (m : Manager mb) (s : SecureStore mb)
    → is_initialized mb m ≡ true
    → IsReady mb s
    → IsManagedOrMoved mb (with_store mb s m) × (core mb (with_store mb s m) ≡ s)
unfolding with_store is_initialized
with_store-IsManaged mb m s on ready = elim (Option-cases m.impl) [
  | inl e ↦ absurd (cc (rw e at on))
  | inr (i, e) ↦
      let on_i : i.is_manager_initialized ≡ true = rw e at on in
      (rw e (inr (_, refl, record { store = inr (on_i, (s, refl, ready)) })), rw e refl)
]

module _ (os : Os) (mb : Mbedtls) (m : Manager mb) (w : os.World)
    (managed : IsManagedOrMoved mb m) where
  -- Through a manager that is initialised with a store that is ready, not initialised, or moved
  -- from, retrieving, deleting, testing and listing never use a null pointer, and do what they do
  -- on the store.
  pub operations_lem :
      (data_id : Str)
      → (retrieve_data os mb data_id m w ≡ Store.retrieve_data os mb data_id (core mb m) w)
        × (delete_data os mb data_id m w ≡ some (Store.delete_data os mb data_id (core mb m) w))
        × (data_exists os mb data_id m w ≡ some (Store.data_exists os mb data_id (core mb m) w))
        × (list_data_ids os mb m w ≡ some (Store.list_data_ids os mb (core mb m) w))
  unfolding retrieve_data delete_data data_exists list_data_ids Store.retrieve_data
      Store.delete_data Store.data_exists Store.list_data_ids
  operations_lem data_id = elim (manager-cases mb m managed) [
    | inl (off, e) ↦ (
      rw (off, e, retrieve_data, Store.retrieve_data) refl,
      rw (off, e, delete_data, Store.delete_data) refl,
      rw (off, e, data_exists, Store.data_exists) refl,
      rw (off, e, list_data_ids, Store.list_data_ids) refl,
    )
    | inr (on, e, _) ↦ (
      rw (retrieve_data, on, e) refl,
      rw (delete_data, on, e) refl,
      rw (data_exists, on, e) refl,
      rw (list_data_ids, on, e) refl,
    )
  ]

  -- Through a manager that is initialised with a store that is ready, not initialised, or moved
  -- from, storing never uses a null pointer, it does what it does on the store, with the same code
  -- and the same world, and it leaves such a manager, which holds the store as it is afterwards.
  pub store_data_lem :
      (data_id : Str) (plain : Bytes)
      → (e : Errc) × (m' : Manager mb) × (w' : os.World) × (store_data os mb data_id plain m w
          ≡ some (e, m', w'))
        × (Store.store_data os mb data_id plain (core mb m) w ≡ some (e, core mb m', w'))
        × IsManagedOrMoved mb m'
  unfolding store_data Store.store_data
  store_data_lem data_id plain = elim (manager-cases mb m managed) [
    | inl (off, e) ↦
        (not_initialized, m, w, rw (off, store_data) refl, rw (e, Store.store_data) refl, managed)
    | inr (on, e, ready) ↦
        let (code, s', w') = Lifecycle.ready_store os mb data_id plain (core mb m) w ready in
        let stores = store_data-ready os mb data_id plain (core mb m) w ready in
        let after =
          with_store-IsManaged mb m s' on
            (ready_store-IsReady os mb data_id plain (core mb m) w ready) in
        (
          code,
          with_store mb s' m,
          w',
          rw (store_data, on, e, stores) refl,
          rw after.1 stores,
          after.0,
        )
  ]
