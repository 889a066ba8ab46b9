-- ===== src/Store/RoundTrip.antt =====
-- What `SecureStore::storeData` stored, `retrieveData` gives back, and other ids are left alone.
use secure_storage.Base.{
  ◌≡◌, ◌≢◌, refl, sym, ap, subst, ◌∙◌, ◌⊎◌, inl, inr, none, some, [], ◌++◌, Bool-cases, arith,
}
use secure_storage.Base.Text.{c_str, has_char, IsPlain, Str, Bytes}
use secure_storage.Error.{Errc, success, is_success_iff}
use secure_storage.Os.{Os}
use secure_storage.Os.Posix.{IsPosix, IsBase, file, device, contents?}
use secure_storage.FileUtil.{read_file}
use secure_storage.Crypto.{Mbedtls, IsLawful}
use secure_storage.Crypto.Encryptor.{Encryptor}
use secure_storage.Crypto.Encryptor.Laws.{encrypt-IsSealed, encrypt-ready}
use secure_storage.Naming.{validate_data_id, get_data_file_path, get_backup_file_path}
use secure_storage.Naming.Roles.{
  Named, Role, main, backup, temp, temp_temp, suffix, temp_of_temp, entry, entry-Apart,
  get_data_file_path-entry, get_backup_file_path-entry, get_temp_file_path-entry,
}
use secure_storage.Store.Shared.{entry-shared, store_encrypted-same}
use secure_storage.FileUtil.Atomic.{empty-entry}
use secure_storage.Store.{SecureStore, store_data, retrieve_data, store_encrypted}
use secure_storage.Store.Lifecycle.{
  IsReady, encrypted, stored, used, used-IsReady, store_data-ready, retrieve_data-ready,
}
use secure_storage.Store.Saving.{
  store_encrypted-success, store_encrypted-Holds, store_encrypted_others,
}
use secure_storage.Store.Retrieving.{from_main, Sealed-file}

module _ (os : Os) (P : IsPosix os) (mb : Mbedtls) (L : IsLawful mb) (data_id : Str) (plain : Bytes)
    (s : SecureStore mb) (w : os.World) (on : IsReady mb s)
    (base : IsBase s.root_storage_path) where
  abbrev enc : Errc × Bytes × Encryptor mb
  enc = encrypted os mb data_id plain s w on

  abbrev out : Errc × os.World
  out = stored os mb data_id plain s w on

  -- How a success came about.
  pub success-parts :
      (s' : SecureStore mb) (w' : os.World)
      → store_data os mb data_id plain s w ≡ some (success, s', w')
      → (validate_data_id data_id ≡ success)
        × (enc.0 ≡ success)
        × (out.0 ≡ success)
        × (used os mb data_id plain s w on ≡ s')
        × (out.1 ≡ w')
  success-parts s' w' h = ground (
    arith,
    h,
    store_data-ready os mb data_id plain s w on,
    is_success_iff (validate_data_id data_id),
    is_success_iff enc.0,
  )

  abbrev at : Role → Str
  at r = entry s.root_storage_path data_id r

  abbrev pub on_entries : Errc × os.World
  on_entries = store_encrypted os (at main) (at backup) (at temp) enc.1 w

  pub out-entries : out ≡ on_entries
  out-entries = rw (get_data_file_path-entry, get_backup_file_path-entry, get_temp_file_path-entry)

  -- A success leaves the sealed data in the main file, also where the id has a NUL byte, so that
  -- its files are one.
  stored-file :
      validate_data_id data_id ≡ success
      → P.node w (at temp_temp) ≢ some device
      → on_entries.0 ≡ success
      → P.node on_entries.1 (at main) ≡ some (file enc.1)
  stored-file valid no_device stores = elim (Bool-cases (has_char 0 data_id)) [
    | inr z ↦
        store_encrypted-success os P s.root_storage_path data_id base (valid, z) enc.1 w no_device
          stores
    | inl nul ↦
        let longer = temp_of_temp s.root_storage_path data_id in
        let one = λ (r r' : Role). entry-shared s.root_storage_path data_id r r' nul in
        store_encrypted-same os P (at main) (at backup) (at temp) (one main backup) (one temp main)
          enc.1 w (empty-entry (data_id ++ suffix temp) base) (ap c_str longer ∙ one temp_temp temp)
          (rw longer no_device) stores
  ]

  -- After a success, the main file holds the data as it was sealed.
  pub store_data-written :
      (s' : SecureStore mb) (w' : os.World)
      → P.node w (at temp_temp) ≢ some device
      → store_data os mb data_id plain s w ≡ some (success, s', w')
      → (validate_data_id data_id ≡ success)
        × (enc.0 ≡ success)
        × (used os mb data_id plain s w on ≡ s')
        × (P.node w' (at main) ≡ some (file enc.1))
  store_data-written s' w' no_device h =
      let (valid, encrypts, stores, same_s, same_w) = success-parts s' w' h in
      (
        valid,
        encrypts,
        same_s,
        rw (← same_w, out-entries) (stored-file valid no_device (rw out-entries at stores)),
      )

  -- For a store that is ready, a root path with no NUL byte that ends in a slash, and no device at
  -- the path of the inner temporary file: if `storeData` reports success and the main file can be
  -- read afterwards, `retrieveData` gives the data back with success and changes nothing.
  pub retrieve_data-store_data :
      (s' : SecureStore mb) (w' : os.World)
      → P.node w (at temp_temp) ≢ some device
      → store_data os mb data_id plain s w ≡ some (success, s', w')
      → (read_file os (at main) w').0 ≡ success
      → retrieve_data os mb data_id s' w' ≡ some (success, plain, w')
  retrieve_data-store_data s' w' no_device h readable =
      let (valid, encrypts, same_s, holds) = store_data-written s' w' no_device h in
      subst (λ t. retrieve_data os mb data_id t w' ≡ some (success, plain, w')) same_s
        (retrieve_data-ready os mb data_id plain (used os mb data_id plain s w on) w'
            (used-IsReady os mb data_id plain s w on) ((is_success_iff _).1 valid)
          ∙ ap some (
              from_main os P mb L (main_path) (backup_path) s.master_key enc.2 w' plain
                (encrypt-ready mb L plain s.master_key [] [] on.e encrypts)
                (Sealed-file os P mb L main_path backup_path s.master_key enc.2 w' main_path plain
                  enc.1 (rw get_data_file_path-entry holds) (rw get_data_file_path-entry readable)
                  (encrypt-IsSealed mb L plain s.master_key [] [] on.e encrypts))))
    where
      main_path : Str
      main_path = get_data_file_path s.root_storage_path data_id

      backup_path : Str
      backup_path = get_backup_file_path s.root_storage_path data_id

  -- The three ways that `storeData` ends.
  pub store_data-cases :
      (e : Errc) (s' : SecureStore mb) (w' : os.World)
      → store_data os mb data_id plain s w ≡ some (e, s', w')
      → (w ≡ w') ⊎ ((validate_data_id data_id ≡ success) × (on_entries.0 ≡ e) × (on_entries.1 ≡ w'))
  store_data-cases e s' w' h = ground (
    arith,
    h,
    out-entries,
    store_data-ready os mb data_id plain s w on,
    is_success_iff (validate_data_id data_id),
  )

  -- For a store that is ready and a root path with no NUL byte that ends in a slash, where the id
  -- has no NUL byte and has data in its main file, or in its backup with no main file: if
  -- `storeData` reports an error, whatever calls of the system failed, those bytes are in the main
  -- file afterwards, or in the backup with no main file.
  pub store_data-keeps :
      (old : Bytes) (e : Errc) (s' : SecureStore mb) (w' : os.World)
      → IsPlain data_id
      → (P.node w (at main) ≡ some (file old))
        ⊎ ((P.node w (at main) ≡ none) × (P.node w (at backup) ≡ some (file old)))
      → store_data os mb data_id plain s w ≡ some (e, s', w')
      → e ≢ success
      → (P.node w' (at main) ≡ some (file old))
        ⊎ ((P.node w' (at main) ≡ none) × (P.node w' (at backup) ≡ some (file old)))
  store_data-keeps old e s' w' z held h failed = elim (store_data-cases e s' w' h) [
    | inl same ↦ subst Held same held
    | inr (valid, code, same) ↦ subst Held same (
        store_encrypted-Holds os P s.root_storage_path data_id base (valid, z) enc.1 w old held
          (λ k. failed (sym code ∙ k)))
  ]
    where
      Held : os.World → Type 0
      Held v =
          (P.node v (at main) ≡ some (file old))
          ⊎ ((P.node v (at main) ≡ none) × (P.node v (at backup) ≡ some (file old)))

  -- For a store that is ready and a root path with no NUL byte that ends in a slash: whatever
  -- `storeData` reports for an id with no NUL byte, each of the four files of every other valid id
  -- with no NUL byte has the contents that it had.
  pub store_data_others :
      (other : Str) (r : Role) (e : Errc) (s' : SecureStore mb) (w' : os.World)
      → IsPlain data_id
      → Named other
      → other ≢ data_id
      → store_data os mb data_id plain s w ≡ some (e, s', w')
      → let q = entry s.root_storage_path other r in
        contents? (P.node w' q) ≡ contents? (P.node w q)
  store_data_others other r e s' w' z valid_other differ h = elim (store_data-cases e s' w' h) [
    | inl same ↦ subst Same same refl
    | inr (valid, _, same) ↦ subst Same same (
        store_encrypted_others os P s.root_storage_path data_id base (valid, z) enc.1 w q
          λ p.
            entry-Apart s.root_storage_path data_id other p r base (valid, z) valid_other
              (inl (λ k. differ (sym k))))
  ]
    where
      q : Str
      q = entry s.root_storage_path other r

      Same : os.World → Type 0
      Same v = contents? (P.node v q) ≡ contents? (P.node w q)
