-- ===== src/Store/Refinement/Storing.antt =====
-- The calls of `SecureStore::storeData` as steps of the versions.
use secure_storage.Base.{
  ◌≡◌, ◌≢◌, refl, sym, ap, subst, ◌∙◌, ◌⊎◌, inl, inr, none, some, [], ◌∷◌, arith,
}
use secure_storage.Base.Text.{Str, Bytes}
use secure_storage.Error.{Errc, success}
use secure_storage.Os.{Os}
use secure_storage.Os.Posix.{IsPosix, device, contents?}
use secure_storage.Crypto.{Mbedtls, IsLawful}
use secure_storage.Crypto.Encryptor.{ready?}
use secure_storage.Crypto.Encryptor.Laws.{encrypt-IsSealed, encrypt-keeps_ready}
use secure_storage.Naming.Roles.{Named, Role, main, backup, temp_temp, entry}
use secure_storage.Store.{SecureStore, store_data}
use secure_storage.Store.Shifts.{Old}
use secure_storage.Store.Tracing.{store_encrypted-Shifted, store_encrypted-Old}
use secure_storage.Store.Saving.{store_encrypted-Holds}
use secure_storage.Store.Lifecycle.{
  IsReady, encrypted, stored, used, used-IsReady, store_data-ready,
}
use secure_storage.Store.RoundTrip.{
  on_entries, out-entries, success-parts, store_data-cases, store_data-written, store_data_others,
}
use secure_storage.Store.Refinement.{Versions, change, OnlyFiles}
use secure_storage.Store.Refinement.Cells.{Has, contents?-file, Cell, Cell-stored, Cell-unstored}
use secure_storage.Store.Refinement.Frame.{Rep, call-Rep, renewed-Rep, change-same, change-other}

module _ (os : Os) (P : IsPosix os) (mb : Mbedtls) (L : IsLawful mb) (m : Versions)
    (s : SecureStore mb) (w : os.World) (rep : Rep os P mb L m s w) (data_id : Str) (plain : Bytes)
    (only : OnlyFiles os P s.root_storage_path data_id w) where
  abbrev at : Role → Str
  at r = entry s.root_storage_path data_id r

  abbrev next : SecureStore mb
  next = used os mb data_id plain s w rep.ready

  works : ready? mb (encrypted os mb data_id plain s w rep.ready).2 ≢ none
  works = encrypt-keeps_ready mb L plain s.master_key [] [] rep.ready.e rep.works

  no_device : P.node w (at temp_temp) ≢ some device
  no_device e = cc (e, only.1 temp_temp (ap contents? e))

  entries :
      stored os mb data_id plain s w rep.ready
      ≡ on_entries os P mb L data_id plain s w rep.ready rep.base
  entries = out-entries os P mb L data_id plain s w rep.ready rep.base

  pub stored-Rep :
      (s1 : SecureStore mb) (w1 : os.World)
      → store_data os mb data_id plain s w ≡ some (success, s1, w1)
      → Rep os P mb L (change data_id (plain ∷ m data_id) m) s1 w1
  stored-Rep s1 w1 h =
      let (valid, encrypts, same_s, holds) =
        store_data-written os P mb L data_id plain s w rep.ready rep.base s1 w1 no_device h in
      let (_, _, _, _, same_w) =
        success-parts os P mb L data_id plain s w rep.ready rep.base s1 w1 h in
      subst (λ t. Rep os P mb L (change data_id (plain ∷ m data_id) m) t w1) same_s
        (call-Rep os P mb L m (change data_id (plain ∷ m data_id) m) s next w w1 data_id rep
          (used-IsReady os mb data_id plain s w rep.ready) works refl refl valid
          (change-other data_id (plain ∷ m data_id) m)
          (rw change-same (
            Cell-stored os P mb L s.root_storage_path s.master_key data_id (m data_id) plain
              (encrypted os mb data_id plain s w rep.ready).1 w w1
              (rep.cells data_id (valid, only.0)) (ap contents? holds)
              (encrypt-IsSealed mb L plain s.master_key [] [] rep.ready.e encrypts)
              (subst (λ v. Old os P (at main) (at backup) w (contents? (P.node v (at backup))))
                (sym (ap (λ (r : Errc × os.World). r.1) entries) ∙ same_w)
                (store_encrypted-Old os P s.root_storage_path data_id rep.base (valid, only.0)
                  (encrypted os mb data_id plain s w rep.ready).1 w))))
          (λ q r good n.
            store_data_others os P mb L data_id plain s w rep.ready rep.base q r success s1 w1
              only.0 good n h))

  -- After a call that fails, the object is as it was, or its generator has been used.
  object :
      (e : Errc) (s1 : SecureStore mb) (w1 : os.World)
      → store_data os mb data_id plain s w ≡ some (e, s1, w1)
      → (s ≡ s1) ⊎ (next ≡ s1)
  object e s1 w1 h = ground (arith, h, store_data-ready os mb data_id plain s w rep.ready)

  pub record Renewed (s1 : SecureStore mb) : Type 0 where
    pub on : IsReady mb s1
    pub still_works : ready? mb on.e ≢ none
    pub same_root : s.root_storage_path ≡ s1.root_storage_path
    pub same_key : s.master_key ≡ s1.master_key

  pub object-Renewed :
      (e : Errc) (s1 : SecureStore mb) (w1 : os.World)
      → store_data os mb data_id plain s w ≡ some (e, s1, w1)
      → Renewed s1
  object-Renewed e s1 w1 h = elim (object e s1 w1 h) [
    | inl same ↦
        subst Renewed same
          (record { on = rep.ready; still_works = rep.works; same_root = refl; same_key = refl })
    | inr same ↦ subst Renewed same (record {
      on = used-IsReady os mb data_id plain s w rep.ready;
      still_works = works;
      same_root = refl;
      same_key = refl;
    })
  ]

  module _ (valid : Named data_id) where
    abbrev sealed : Bytes
    sealed = (encrypted os mb data_id plain s w rep.ready).1

    abbrev failed : Errc × os.World
    failed = on_entries os P mb L data_id plain s w rep.ready rep.base

    -- What is current is kept by a call that fails.
    kept :
        failed.0 ≢ success
        → (bytes : Bytes) → Has os P mb L s.root_storage_path s.master_key data_id bytes w
        → Has os P mb L s.root_storage_path s.master_key data_id bytes failed.1
    kept n bytes has =
        elim (store_encrypted-Holds os P s.root_storage_path data_id rep.base valid sealed w bytes
          (elim has [
            | inl e ↦ inl (contents?-file _ bytes e)
            | inr (none_there, e) ↦ inr (only.1 main none_there, contents?-file _ bytes e)
          ])
          n) [
            | inl e ↦ inl (ap contents? e)
            | inr (gone, e) ↦ inr (ap contents? gone, ap contents? e)
          ]

    kept-Cell :
        failed.0 ≢ success
        → Cell os P mb L s.root_storage_path s.master_key data_id (m data_id) failed.1
    kept-Cell n =
        Cell-unstored os P mb L s.root_storage_path s.master_key data_id (m data_id) w failed.1
          (rep.cells data_id valid) (kept n)
          (store_encrypted-Shifted os P s.root_storage_path data_id rep.base valid sealed w n)

  -- A call that fails keeps all versions.
  pub unstored-Rep :
      (e : Errc) (s1 : SecureStore mb) (w1 : os.World)
      → e ≢ success
      → store_data os mb data_id plain s w ≡ some (e, s1, w1)
      → Rep os P mb L m s1 w1
  unstored-Rep e s1 w1 n h =
      let new = object-Renewed e s1 w1 h in
      elim (store_data-cases os P mb L data_id plain s w rep.ready rep.base e s1 w1 h) [
        | inl same ↦
            renewed-Rep os P mb L m s s1 w w1 rep new.on new.still_works new.same_root new.same_key
              (λ q. ap (λ v. contents? (P.node v q)) (sym same))
        | inr (valid, code, same) ↦
            call-Rep os P mb L m m s s1 w w1 data_id rep new.on new.still_works new.same_root
              new.same_key valid (λ q _. refl)
              (subst (Cell os P mb L s.root_storage_path s.master_key data_id (m data_id)) same
                (kept-Cell (valid, only.0) (λ k. n (sym code ∙ k))))
              (λ q r good differ.
                store_data_others os P mb L data_id plain s w rep.ready rep.base q r e s1 w1 only.0
                  good differ h)
      ]
