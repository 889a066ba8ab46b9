-- ===== src/Store/Crash.antt =====
-- `SecureStore::storeData` in a process that dies at some point.
use secure_storage.Base.{ℕ, ◌≡◌, ◌≢◌, ◌⊎◌, inl, inr, none, some, Bool-cases, [], ap, ◌∙◌}
use secure_storage.Base.Text.{IsPlain, Str, Bytes}
use secure_storage.Error.{Errc, is_success, is_success_iff}
use secure_storage.Os.{Os}
use secure_storage.Os.Posix.{IsPosix, IsBase, file, device, contents?}
use secure_storage.Os.Crash.{mortal}
use secure_storage.Os.Crash.Laws.{mortal-IsPosix}
use secure_storage.Crypto.{Mbedtls, IsLawful}
use secure_storage.Crypto.Encryptor.Laws.{IsSealed, encrypt-IsSealed}
use secure_storage.Naming.Roles.{Named, Role, main, backup, temp_temp, entry}
use secure_storage.Store.{SecureStore, store_data}
use secure_storage.Store.Lifecycle.{IsReady, store_data-IsSound}
use secure_storage.Store.RoundTrip.{store_data-written, store_data-keeps, store_data_others}

module _ (os : Os) (P : IsPosix os) (mb : Mbedtls) (L : IsLawful mb) (data_id : Str) (plain : Bytes)
    (s : SecureStore mb) (w : os.World) (on : IsReady mb s)
    (base : IsBase s.root_storage_path) where
  abbrev at : Role → Str
  at r = entry s.root_storage_path data_id r

  -- The data that an id had is still there, or the new data is in the main file.
  abbrev pub Survives : Bytes → os.World → Type 0
  Survives old v =
      (P.node v (at main) ≡ some (file old))
      ⊎ ((P.node v (at main) ≡ none) × (P.node v (at backup) ≡ some (file old)))
      ⊎ ((bytes : Bytes) × (P.node v (at main) ≡ some (file bytes))
          × IsSealed mb L plain s.master_key [] bytes)

  -- For a store that is ready, a root path with no NUL byte that ends in a slash, no device at the
  -- path of the inner temporary file, and an id with no NUL byte that has data in its main file, or
  -- in its backup with no main file: in a process that dies after any number of the calls that
  -- change something, `storeData` leaves those bytes in the main file, or in the backup with no
  -- main file, or the new data, sealed under the key, in the main file; and it leaves each of the
  -- four files of every other valid id with no NUL byte with the contents that it had.
  pub store_data_crash :
      (old : Bytes) (n : ℕ)
      → IsPlain data_id
      → P.node w (at temp_temp) ≢ some device
      → (P.node w (at main) ≡ some (file old))
        ⊎ ((P.node w (at main) ≡ none) × (P.node w (at backup) ≡ some (file old)))
      → (r : Errc × SecureStore mb × (os.World × ℕ)) × (store_data
            (mortal os)
            mb
            data_id
            plain
            s
            (w, n)
          ≡ some r)
        × Survives old r.2.0
        × ((other : Str) (role : Role)
            → Named other
            → other ≢ data_id
            → contents? (P.node r.2.0 (entry s.root_storage_path other role))
              ≡ contents? (P.node w (entry s.root_storage_path other role)))
  unfolding mortal-IsPosix
  store_data_crash old n z no_device held =
      let (r, h, _) = store_data-IsSound (mortal os) mb data_id s (w, n) (inr on) plain in
      (
        r,
        h,
        outcome r h,
        λ other role good differ.
            store_data_others (mortal os) (mortal-IsPosix os P) mb L data_id plain s (w, n) on base
              other role r.0 r.1 r.2 z good differ h,
      )
    where
      outcome :
          (r : Errc × SecureStore mb × (os.World × ℕ))
          → store_data (mortal os) mb data_id plain s (w, n) ≡ some r
          → Survives old r.2.0
      outcome r h = elim (Bool-cases (is_success r.0)) [
        | inl t ↦
            let done = (is_success_iff r.0).0 t in
            let (_, encrypts, _, holds) =
              store_data-written (mortal os) (mortal-IsPosix os P) mb L data_id plain s (w, n) on
                base r.1 r.2 no_device (h ∙ ap (λ c. some (c, r.1, r.2)) done) in
            inr (inr (_, holds, encrypt-IsSealed mb L plain s.master_key [] [] on.e encrypts))
        | inr f ↦
            elim (store_data-keeps (mortal os) (mortal-IsPosix os P) mb L data_id plain s (w, n) on
              base old r.0 r.1 r.2 z held h (λ k. cc (f, (is_success_iff r.0).1 k))) [
                | inl m ↦ inl m
                | inr b ↦ inr (inl b)
              ]
      ]
