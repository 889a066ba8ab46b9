-- ===== src/Store/Power/Storing.antt =====
-- `SecureStore::storeData` on a disk that loses its power at some point.
use secure_storage.Base.{
  ℕ, ◌≡◌, ◌≢◌, refl, sym, subst, ◌∙◌, ◌⊎◌, inl, inr, none, some, [], ◌++◌, arith,
}
use secure_storage.Base.Text.{IsPlain, Str, Bytes}
use secure_storage.Error.{Errc, success, is_success_iff, is_success-success}
use secure_storage.Os.{Os}
use secure_storage.Os.Posix.{IsPosix, IsBase, device}
use secure_storage.Os.Durable.{IsDurable}
use secure_storage.Os.Durable.Mortal.{mortal-IsDurable}
use secure_storage.Os.Crash.{mortal}
use secure_storage.Os.Crash.Laws.{mortal-IsPosix}
use secure_storage.Crypto.{Mbedtls, IsLawful}
use secure_storage.Crypto.Encryptor.Laws.{IsSealed, encrypt-IsSealed}
use secure_storage.Store.Lifecycle.{IsReady, encrypted, store_data-IsSound, store_data-ready}
use secure_storage.Store.RoundTrip.{on_entries, out-entries}
use secure_storage.FileUtil.{atomic_write_file, write_and_rename}
use secure_storage.FileUtil.Atomic.{empty-entry}
use secure_storage.Naming.{validate_data_id}
use secure_storage.Naming.Roles.{
  Named, Role, main, backup, temp, temp_temp, suffix, entry, temp_of_temp,
}
use secure_storage.Store.{SecureStore, store_data}
use secure_storage.Store.Steps.{AreApart, back_up_others}
use secure_storage.Store.Saving.{
  apart, written, stored, A, stored-cases, written-success, directory-ready,
}
use secure_storage.Store.Power.{Holds, Holds-mono, OrNew, IsSafe, IsSafe-mono}
use secure_storage.Store.Power.Files.{IsSafe-mortal, delete_file-Safe, write_and_rename-Safe}
use secure_storage.Store.Power.Steps.{back_up-Safe, back_up-Synced, replace_main-Safe}

module _ (os : Os) (P : IsPosix os) (D : IsDurable P) (root data_id : Str) (base : IsBase root)
    (valid : Named data_id) (enc : Bytes) (w : os.World) where
  abbrev at : Role → Str
  at r = entry root data_id r

  abbrev Safe : (Bytes → Type 0) → os.World → Type 0
  Safe V v = IsSafe os P D (at main) (at backup) (Holds V) v

  abbrev first : Errc × os.World
  first = written os P root data_id base valid enc w

  abbrev out : Errc × os.World
  out = stored os P root data_id base valid enc w

  abbrev paths : AreApart (at main) (at backup) (at temp)
  paths = A os P root data_id base valid enc w

  first-eq : (p : Role) → P.node w (at p) ≢ none → first ≡ write_and_rename os (at temp) enc w
  unfolding atomic_write_file
  first-eq p there =
      rw
        (
          empty-entry (data_id ++ suffix temp) base,
          directory-ready os P root data_id base valid enc w p temp there,
          is_success-success,
        )
        refl

  first-Safe :
      (V : Bytes → Type 0) (p : Role)
      → P.node w (at p) ≢ none
      → D.Sole w (at temp_temp)
      → Safe V w
      → Safe V first.1 × (first.0 ≡ success → D.Synced first.1 (at temp))
  first-Safe V p there sole safe = rw (first-eq p there) (
      write_and_rename-Safe os P D (at main) (at backup) (Holds V) (at temp_temp)
        (apart root data_id base valid temp_temp main (λ e. cc))
        (apart root data_id base valid temp_temp backup (λ e. cc)) (at temp) paths.temp_main
        paths.temp_backup (apart root data_id base valid temp_temp temp (λ e. cc)) enc w sole safe
        (sym (temp_of_temp root data_id)))

  is_there : (V : Bytes → Type 0) → Safe V w → (p : Role) × (P.node w (at p) ≢ none)
  is_there V safe =
      let (bytes, _, at) = safe.now in
      elim at [ inl m ↦ (main, λ n. cc) | inr (_, b) ↦ (backup, λ n. cc) ]

  pub store_encrypted-Safe :
      (V : Bytes → Type 0)
      → D.Sole w (at temp_temp)
      → P.node w (at temp_temp) ≢ some device
      → Safe V w
      → Safe (OrNew V enc) out.1
  store_encrypted-Safe V sole no_device safe =
      let (p, there) = is_there V safe in
      let (safe1, synced) = first-Safe V p there sole safe in
      elim (stored-cases os P root data_id base valid enc w) [
        | inl (f, e) ↦ rw e (
            delete_file-Safe os P D (at main) (at backup) (Holds (OrNew V enc)) (at temp)
              paths.temp_main paths.temp_backup _
              (IsSafe-mono os P D (at main) (at backup) (Holds V) (Holds (OrNew V enc)) _
                (λ m b. Holds-mono V (OrNew V enc) m b (λ _ v. inl v)) safe1))
        | inr (s, e) ↦ rw e (
            replace_main-Safe os P D (at main) (at backup) (at temp) paths V enc _
              (back_up-Safe os P D (at main) (at backup) (at temp) paths V first.1 safe1)
              (back_up_others os P (at main) (at backup) (at temp) paths first.1 (at temp)
                  paths.main_temp paths.backup_temp
                ∙ written-success os P root data_id base valid enc w no_device s)
              (back_up-Synced os P D (at main) (at backup) (at temp) paths first.1 (at temp)
                paths.main_temp paths.backup_temp (synced ((is_success_iff first.0).0 s))))
      ]

module _ (os : Os) (P : IsPosix os) (D : IsDurable P) (mb : Mbedtls) (L : IsLawful mb)
    (data_id : Str) (plain : Bytes) (s : SecureStore mb) (w : os.World) (on : IsReady mb s)
    (base : IsBase s.root_storage_path) where
  abbrev file_of : Role → Str
  file_of r = entry s.root_storage_path data_id r

  -- The contents that were there, or the new data, sealed under the key.
  abbrev pub OrSealed : (Bytes → Type 0) → Bytes → Type 0
  OrSealed V bytes = V bytes ⊎ IsSealed mb L plain s.master_key [] bytes

  -- It changes something only after it has sealed the data.
  store_data-ways :
      (e : Errc) (s' : SecureStore mb) (w' : os.World)
      → store_data os mb data_id plain s w ≡ some (e, s', w')
      → (w ≡ w')
        ⊎ ((validate_data_id data_id ≡ success)
            × ((encrypted os mb data_id plain s w on).0 ≡ success)
            × ((on_entries os P mb L data_id plain s w on base).1 ≡ w'))
  store_data-ways e s' w' h = ground (
    arith,
    h,
    out-entries os P mb L data_id plain s w on base,
    store_data-ready os mb data_id plain s w on,
    is_success_iff (validate_data_id data_id),
    is_success_iff (encrypted os mb data_id plain s w on).0,
  )

  -- The whole of `storeData`, whatever it reports.
  stored-Safe :
      (V : Bytes → Type 0) (e : Errc) (s' : SecureStore mb) (w' : os.World)
      → IsPlain data_id
      → D.Sole w (file_of temp_temp)
      → P.node w (file_of temp_temp) ≢ some device
      → IsSafe os P D (file_of main) (file_of backup) (Holds V) w
      → store_data os mb data_id plain s w ≡ some (e, s', w')
      → IsSafe os P D (file_of main) (file_of backup) (Holds (OrSealed V)) w'
  stored-Safe V e s' w' z sole no_device safe h = elim (store_data-ways e s' w' h) [
    | inl same ↦ subst (IsSafe os P D (file_of main) (file_of backup) (Holds (OrSealed V))) same (
        IsSafe-mono os P D (file_of main) (file_of backup) (Holds V) (Holds (OrSealed V)) w
          (λ m b. Holds-mono V (OrSealed V) m b (λ _ v. inl v)) safe)
    | inr (valid, encrypts, same) ↦
        let enc = (encrypted os mb data_id plain s w on).1 in
        let sealed = encrypt-IsSealed mb L plain s.master_key [] [] on.e encrypts in
        subst (IsSafe os P D (file_of main) (file_of backup) (Holds (OrSealed V))) same (
          IsSafe-mono os P D (file_of main) (file_of backup) (Holds (OrNew V enc))
            (Holds (OrSealed V)) _
            (λ m b. Holds-mono (OrNew V enc) (OrSealed V) m b (λ bytes v. elim v [
              | inl x ↦ inl x
              | inr x ↦ inr (subst (λ y. IsSealed mb L plain s.master_key [] y) (sym x) sealed)
            ]))
            (store_encrypted-Safe os P D s.root_storage_path data_id base (valid, z) enc w V sole
              no_device safe))
  ]

module _ (os : Os) (P : IsPosix os) (D : IsDurable P) (mb : Mbedtls) (L : IsLawful mb)
    (data_id : Str) (plain : Bytes) (s : SecureStore mb) (w : os.World) (on : IsReady mb s)
    (base : IsBase s.root_storage_path) where
  abbrev path : Role → Str
  path r = entry s.root_storage_path data_id r

  -- For a file system that has the laws of a journal, a store that is ready, a root path with no
  -- NUL byte that ends in a slash, and a path of the inner temporary file that leads to no device
  -- and whose file has had no other path: if the main file of an id with no NUL byte, or its backup
  -- with no main file, has contents of some kind, now and after a loss of power, and those of the
  -- two files that are there are on the disk, then after any number of the system's calls of
  -- `storeData` that change something, and a loss of power, the main file, or the backup with no
  -- main file, has contents of that kind or the new data, sealed under the key.
  pub store_data-Loss :
      (V : Bytes → Type 0) (n : ℕ)
      → IsPlain data_id
      → D.Sole w (path temp_temp)
      → P.node w (path temp_temp) ≢ some device
      → IsSafe os P D (path main) (path backup) (Holds V) w
      → (r : Errc × SecureStore mb × (os.World × ℕ)) × (store_data
            (mortal os)
            mb
            data_id
            plain
            s
            (w, n)
          ≡ some r)
        × ((v : os.World)
            → D.Loss r.2.0 v
            → Holds
                (λ bytes. V bytes ⊎ IsSealed mb L plain s.master_key [] bytes)
                (P.node v (path main))
                (P.node v (path backup)))
  unfolding mortal-IsPosix mortal-IsDurable
  store_data-Loss V n z sole no_device safe =
      let (r, h, _) = store_data-IsSound (mortal os) mb data_id s (w, n) (inr on) plain in
      let after =
        stored-Safe (mortal os) (mortal-IsPosix os P) (mortal-IsDurable os P D) mb L data_id plain s
          (w, n) on base V r.0 r.1 r.2 z sole no_device
          (IsSafe-mortal os P D (path main) (path backup) (Holds V) w n safe) h in
      (r, h, λ v l. after.losses (v, 0) l)
