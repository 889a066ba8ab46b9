-- ===== src/Manager/RoundTrip.antt =====
-- What was stored through `SecureStorageManager` is retrieved through it.
use secure_storage.Base.{◌≡◌, ◌≢◌, refl, sym, ◌∙◌, inl, inr, some}
use secure_storage.Base.Text.{Str, Bytes}
use secure_storage.Error.{success, not_initialized}
use secure_storage.Os.{Os}
use secure_storage.Os.Posix.{IsPosix, IsBase, device}
use secure_storage.FileUtil.{read_file}
use secure_storage.Crypto.{Mbedtls, IsLawful}
use secure_storage.Naming.Roles.{Role, main, temp_temp, entry}
use secure_storage.Store
use secure_storage.Store.RoundTrip
use secure_storage.Manager.{Manager, store_data, retrieve_data}
use secure_storage.Manager.Construction.{IsManagedOrMoved}
use secure_storage.Manager.Operations.{core, manager-cases, store_data_lem, operations_lem}

module _ (os : Os) (P : IsPosix os) (mb : Mbedtls) (L : IsLawful mb) (m : Manager mb) (w : os.World)
    (managed : IsManagedOrMoved mb m) (base : IsBase (core mb m).root_storage_path) where
  abbrev at : Str → Role → Str
  at data_id r = entry (core mb m).root_storage_path data_id r

  stored_in-core :
      (data_id : Str) (plain : Bytes) (m' : Manager mb) (w' : os.World)
      → store_data os mb data_id plain m w ≡ some (success, m', w')
      → (Store.store_data os mb data_id plain (core mb m) w ≡ some (success, core mb m', w'))
        × IsManagedOrMoved mb m'
  stored_in-core data_id plain m' w' h =
      let (e, m1, w1, same, stores, managed') = store_data_lem os mb m w managed data_id plain in
      let both : some (e, m1, w1) ≡ some (success, m', w') = sym same ∙ h in
      let code : e ≡ success = cc (both) in
      let obj : m1 ≡ m' = cc (both) in
      let world : w1 ≡ w' = cc (both) in (rw (← code, ← obj, ← world) stores, rw (← obj) managed')

  -- For a manager that is initialised with a store that is ready, not initialised, or moved from, a
  -- root path that ends in a slash, and no device at the path of the inner temporary file: if
  -- storing through it reports success and the main file can be read afterwards, retrieving through
  -- it gives the data back with success and changes nothing.
  pub manager-round_trip :
      (data_id : Str) (plain : Bytes) (m' : Manager mb) (w' : os.World)
      → P.node w (at data_id temp_temp) ≢ some device
      → store_data os mb data_id plain m w ≡ some (success, m', w')
      → (read_file os (at data_id main) w').0 ≡ success
      → retrieve_data os mb data_id m' w' ≡ some (success, plain, w')
  unfolding Store.store_data
  manager-round_trip data_id plain m' w' no_device h readable =
      let (stores, managed') = stored_in-core data_id plain m' w' h in
      elim (manager-cases mb m managed) [
        | inl (_, off) ↦
            let refused : Store.store_data os mb data_id plain (core mb m) w
                ≡ some (not_initialized, core mb m, w) =
              rw (off, Store.store_data) refl in
            absurd (cc (refused, stores))
        | inr (_, _, ready) ↦
            (operations_lem os mb m' w' managed' data_id).0
            ∙ RoundTrip.retrieve_data-store_data os P mb L data_id plain (core mb m) w ready base
                (core mb m') w' no_device stores readable
      ]
