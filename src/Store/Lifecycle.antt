-- ===== src/Store/Lifecycle.antt =====
-- The construction of a `SecureStore`, and that its operations never use a null pointer.
use secure_storage.Base.{
  ◌≡◌, ◌≢◌, ◌↔◌, refl, ◌⊎◌, inl, inr, true, false, ◌||◌, not, none, some, [], ◌∷◌, ◌++◌, arith,
  length, Bool-cases, if◌then◌else◌,
}
use secure_storage.Base.Text.{Str, Bytes, empty, back_is, is_separator, back_is-append}
use secure_storage.Error.{Errc, success, not_initialized, is_success, is_success_iff}
use secure_storage.Os.{Os}
use secure_storage.FileUtil.{create_directories}
use secure_storage.Crypto.{Mbedtls, IsLawful}
use secure_storage.Crypto.KeyProvider.{
  key_provider, get_encryption_key, hkdf_salt_default, hkdf_info_default,
}
use secure_storage.Crypto.KeyProvider.Laws.{get_encryption_key_lem}
use secure_storage.Crypto.Encryptor.{Encryptor, encrypt}
use secure_storage.Naming.{
  validate_data_id, get_data_file_path, get_backup_file_path, get_temp_file_path,
}
use secure_storage.Store.{
  SecureStore, initialize, secure_store, store_data, retrieve_data, store_encrypted, retrieve_main,
}

module _ (mb : Mbedtls) where
  -- What holds of an object that is ready for use.
  pub record IsReady (s : SecureStore mb) : Type 0 where
    pub initialized : s.initialized ≡ true
    pub e : Encryptor mb
    pub encryptor : s.encryptor ≡ some e
    pub key_length : length s.master_key ≡ 32
    pub root_ends : back_is is_separator s.root_storage_path ≡ true

  abbrev pub IsSound : SecureStore mb → Type 0
  IsSound s = (s.initialized ≡ false) ⊎ IsReady s

-- The path that the constructor keeps.
abbrev pub with_separator : Str → Str
with_separator root = if back_is is_separator root then root else root ++ b'/' ∷ []

with_separator-ends : (root : Str) → back_is is_separator (with_separator root) ≡ true
unfolding back_is
with_separator-ends root = elim (Bool-cases (back_is is_separator root)) [
  | inl e ↦ rw (e, with_separator) e
  | inr e ↦ rw (e, with_separator) (back_is-append is_separator root [] b'/')
]

module _ (os : Os) (mb : Mbedtls) (L : IsLawful mb) where
  abbrev pub derived : Str → Errc × Bytes
  derived serial =
      get_encryption_key mb (key_provider serial hkdf_salt_default hkdf_info_default) [] 32

  derived-length : (serial : Str) → (derived serial).0 ≡ success → length (derived serial).1 ≡ 32
  derived-length serial h = ground (
    arith,
    get_encryption_key_lem mb L (key_provider serial hkdf_salt_default hkdf_info_default) [] 32,
  )

  initialize-IsSound :
      (root serial : Str) (entropy : mb.Rng)
      → back_is is_separator root ≡ true
      → IsSound mb (initialize mb root serial entropy)
  unfolding initialize
  initialize-IsSound root serial entropy h = elim (Bool-cases (is_success (derived serial).0)) [
    | inr f ↦ rw (f, initialize) (inl refl)
    | inl s ↦
        rw (s, initialize)
          (inr (record {
            initialized = refl;
            e = _;
            encryptor = refl;
            key_length = derived-length serial ((is_success_iff _).0 s);
            root_ends = h;
          }))
  ]

  -- The constructor leaves a store that is not initialised, or one that is ready: it has an
  -- encryptor, a key of 32 bytes and a root path that ends in a separator.
  pub secure_store-IsSound :
      (root serial : Str) (entropy : mb.Rng) (w : os.World)
      → IsSound mb (secure_store os mb root serial entropy w).0
  unfolding secure_store
  secure_store-IsSound root serial entropy w = elim (Bool-cases (empty root || empty serial)) [
    | inl e ↦ rw (e, secure_store) (inl refl)
    | inr e ↦ elim (Bool-cases (is_success (create_directories os (with_separator root) w).0)) [
      | inr f ↦ rw (e, f, secure_store) (inl refl)
      | inl s ↦
          rw (e, s, secure_store)
            (initialize-IsSound (with_separator root) serial entropy (with_separator-ends root))
    ]
  ]

  initialize-initialized :
      (root serial : Str) (entropy : mb.Rng)
      → (initialize mb root serial entropy).initialized ≡ is_success (derived serial).0
  unfolding initialize
  initialize-initialized root serial entropy = ground arith

  -- The constructor leaves an initialised store exactly if neither argument is empty, the directory
  -- of the root path with a separator at its end could be made, and the master key could be
  -- derived.
  pub secure_store-initialized_iff :
      (root serial : Str) (entropy : mb.Rng) (w : os.World)
      → ((secure_store os mb root serial entropy w).0.initialized ≡ true) ↔ (
          (root ≢ [])
          × (serial ≢ [])
          × ((create_directories os (with_separator root) w).0 ≡ success)
          × ((derived serial).0 ≡ success))
  unfolding secure_store
  secure_store-initialized_iff root serial entropy w = ground (
    arith,
    initialize-initialized (with_separator root) serial entropy,
    is_success_iff (create_directories os (with_separator root) w).0,
    is_success_iff (derived serial).0,
  )

module _ (os : Os) (mb : Mbedtls) (data_id : Str) (plain : Bytes) (s : SecureStore mb)
    (w : os.World) (on : IsReady mb s) where
  abbrev pub encrypted : Errc × Bytes × Encryptor mb
  encrypted = encrypt mb plain s.master_key [] [] on.e

  abbrev pub root : Str
  root = s.root_storage_path

  abbrev pub stored : Errc × os.World
  stored =
      store_encrypted os (get_data_file_path root data_id) (get_backup_file_path root data_id)
        (get_temp_file_path root data_id) encrypted.1 w

  -- The object afterwards: its encryptor has drawn an IV.
  abbrev pub used : SecureStore mb
  used = record s { encryptor = some encrypted.2 }

  abbrev pub used-IsReady : IsReady mb used
  used-IsReady = record {
    initialized = on.initialized;
    e = encrypted.2;
    encryptor = refl;
    key_length = on.key_length;
    root_ends = on.root_ends;
  }

  abbrev pub ready_store : Errc × SecureStore mb × os.World
  ready_store =
      if not (is_success (validate_data_id data_id))
      then (validate_data_id data_id, s, w)
      else if not (is_success encrypted.0)
      then (encrypted.0, used, w)
      else (stored.0, used, stored.1)

  -- `storeData` of an object that is ready.
  pub store_data-ready : store_data os mb data_id plain s w ≡ some ready_store
  unfolding store_data
  store_data-ready = ground (arith, on.initialized, on.encryptor)

  pub ready_store-IsReady : IsReady mb ready_store.1
  ready_store-IsReady = elim (Bool-cases (is_success (validate_data_id data_id))) [
    | inr v ↦ rw v on
    | inl v ↦ elim (Bool-cases (is_success encrypted.0)) [
      | inr f ↦ rw (v, f) used-IsReady
      | inl o ↦ rw (v, o) used-IsReady
    ]
  ]

  -- `retrieveData` of an object that is ready.
  pub retrieve_data-ready :
      is_success (validate_data_id data_id) ≡ true
      → retrieve_data os mb data_id s w
        ≡ some (
            retrieve_main os mb
              (get_data_file_path root data_id)
              (get_backup_file_path root data_id)
              s.master_key
              on.e
              w)
  unfolding retrieve_data
  retrieve_data-ready v = rw (on.initialized, v, on.encryptor, retrieve_data)

module _ (os : Os) (mb : Mbedtls) (data_id : Str) (s : SecureStore mb) (w : os.World)
    (sound : IsSound mb s) where
  -- On a store that is ready or not initialised, `storeData` never uses a null encryptor, and it
  -- leaves a store that is ready or not initialised.
  pub store_data-IsSound :
      (plain : Bytes)
      → (r : Errc × SecureStore mb × os.World) × (store_data os mb data_id plain s w ≡ some r)
        × IsSound mb r.1
  unfolding store_data
  store_data-IsSound plain = elim sound [
    | inl off ↦ ((not_initialized, s, w), rw (off, store_data), inl off)
    | inr on ↦ (
      ready_store os mb data_id plain s w on,
      store_data-ready os mb data_id plain s w on,
      inr (ready_store-IsReady os mb data_id plain s w on),
    )
  ]

  -- On a store that is ready or not initialised, `retrieveData` never uses a null encryptor.
  pub retrieve_data-total : retrieve_data os mb data_id s w ≢ none
  unfolding retrieve_data
  retrieve_data-total h = elim sound [
    | inl off ↦ ground arith
    | inr on ↦ ground (arith, on.encryptor)
  ]
