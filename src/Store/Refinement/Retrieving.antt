-- ===== src/Store/Refinement/Retrieving.antt =====
-- The calls of `SecureStore::retrieveData`, `dataExists` and `listDataIds` as steps of the versions.
use secure_storage.Base.{
  ◌≡◌, ◌≢◌, refl, sym, ap, subst, ◌∙◌, ◌⊎◌, inl, inr, false, none, some, List, [], ◌∷◌, arith,
  Bool-cases,
}
use secure_storage.Base.Text.{Str, Bytes, empty}
use secure_storage.Error.{Errc, success, is_success, is_success_iff}
use secure_storage.Os.{Os}
use secure_storage.Os.Posix.{IsPosix, IsFaultless, contents?}
use secure_storage.FileUtil.{read_file}
use secure_storage.FileUtil.Reading.{read_file-faultless, read_file-missing}
use secure_storage.Crypto.{Mbedtls, IsLawful}
use secure_storage.Crypto.Encryptor.Laws.{IsSealed}
use secure_storage.Naming.{validate_data_id}
use secure_storage.Naming.Roles.{
  Named, Role, main, backup, temp, entry, entry-ne-nil, entry-Apart, get_data_file_path-entry,
  get_backup_file_path-entry,
}
use secure_storage.Store.{SecureStore, retrieve_data, retrieve_main, restore_main}
use secure_storage.Store.Lifecycle.{retrieve_data-ready}
use secure_storage.Store.Retrieving.{
  Sealed, Sealed-file, from_main, to_backup, from_backup, retrieve_main-sound, retrieve_main-failed,
}
use secure_storage.Store.Fallback.{restore_main-backup, restore_main-outcome, restore_main_others}
use secure_storage.Store.Refinement.{Versions, OnlyFiles}
use secure_storage.Store.Refinement.Cells.{Has, IsVersion, contents?-file, Cell}
use secure_storage.Store.Refinement.Frame.{Rep, call-Rep}

List-cases {ℓ} : {A : Type ℓ} (l : List A) → (l ≡ []) ⊎ ((x : A) × (l' : List A) × (l ≡ x ∷ l'))
List-cases [] = inl refl
List-cases (x ∷ l) = inr (x, l, refl)

empty-some : (p : Str) → p ≢ [] → empty p ≡ false
empty-some [] n = absurd (n refl)
empty-some (c ∷ p) n = refl

module _ (os : Os) (P : IsPosix os) (mb : Mbedtls) (L : IsLawful mb) (m : Versions)
    (s : SecureStore mb) (w : os.World) (rep : Rep os P mb L m s w) (data_id : Str) where
  abbrev at : Role → Str
  at r = entry s.root_storage_path data_id r

  abbrev got : Errc × Bytes × os.World
  got = retrieve_main os mb (at main) (at backup) s.master_key rep.ready.e w

  retrieves : validate_data_id data_id ≡ success → retrieve_data os mb data_id s w ≡ some got
  retrieves valid =
      retrieve_data-ready os mb data_id [] s w rep.ready ((is_success_iff _).1 valid)
      ∙ rw (get_data_file_path-entry, get_backup_file_path-entry) refl

  -- A success is one of an accepted id.
  retrieves-valid :
      (plain : Bytes) (w1 : os.World)
      → retrieve_data os mb data_id s w ≡ some (success, plain, w1)
      → validate_data_id data_id ≡ success
  unfolding retrieve_data
  retrieves-valid plain w1 h =
      ground (arith, rep.ready.initialized, is_success_iff (validate_data_id data_id))

  rejected :
      validate_data_id data_id ≢ success
      → retrieve_data os mb data_id s w ≡ some (validate_data_id data_id, [], w)
  unfolding retrieve_data
  rejected n = ground (arith, rep.ready.initialized, is_success_iff (validate_data_id data_id))

  module _ (F : IsFaultless P) (only : OnlyFiles os P s.root_storage_path data_id w)
      (valid : Named data_id) where
    -- A file that has sealed data is read.
    abbrev reads :
        (r : Role) (plain bytes : Bytes)
        → contents? (P.node w (at r)) ≡ some bytes
        → IsSealed mb L plain s.master_key [] bytes
        → Sealed os P mb L (at main) (at backup) s.master_key rep.ready.e w (at r) plain
    reads r plain bytes n sealed =
        let there = contents?-file _ bytes n in
        Sealed-file os P mb L (at main) (at backup) s.master_key rep.ready.e w (at r) plain bytes
          there
          (ap (λ x. x.0)
            (read_file-faultless os P F (at r) w bytes
              (empty-some (at r) (entry-ne-nil s.root_storage_path data_id r rep.base)) there))
          sealed

    -- A file that has none is not.
    misses : (r : Role) → contents? (P.node w (at r)) ≡ none → (read_file os (at r) w).0 ≢ success
    misses r n = read_file-missing os P (at r) w (only.1 r n)

    -- What is found in the backup is found, and the main file is restored or it still has nothing.
    from_backup_alone :
        (plain bytes : Bytes)
        → contents? (P.node w (at main)) ≡ none
        → contents? (P.node w (at backup)) ≡ some bytes
        → IsSealed mb L plain s.master_key [] bytes
        → got ≡ (success, plain, restore_main os (at main) bytes false w)
    from_backup_alone plain bytes n b sealed =
        let f : is_success (read_file os (at main) w).0 ≡ false =
          elim (Bool-cases (is_success (read_file os (at main) w).0)) [
            | inr f ↦ f
            | inl t ↦ absurd (misses main n ((is_success_iff _).0 t))
          ] in
        to_backup os P mb L (at main) (at backup) s.master_key rep.ready.e w (rw f refl)
        ∙ rw f (
            from_backup os P mb L (at main) (at backup) s.master_key rep.ready.e w plain rep.works
              (reads backup plain bytes b sealed) false)

    abbrev restored : Bytes → os.World
    restored bytes = restore_main os (at main) bytes false w

    restored-Rep :
        (plain bytes : Bytes) (l : List Bytes)
        → m data_id ≡ plain ∷ l
        → contents? (P.node w (at main)) ≡ none
        → contents? (P.node w (at backup)) ≡ some bytes
        → IsSealed mb L plain s.master_key [] bytes
        → Rep os P mb L m s (restored bytes)
    restored-Rep plain bytes l has n b sealed =
        call-Rep os P mb L m m s s w (restored bytes) data_id rep rep.ready rep.works refl refl
          valid.0 (λ q _. refl) (rw has ((bytes, holds, sealed), λ x e. past x (sym kept ∙ e)))
          (λ q r good differ.
            restore_main_others os P s.root_storage_path data_id rep.base valid bytes false w
              (entry s.root_storage_path q r)
              (entry-Apart s.root_storage_path data_id q temp r rep.base valid good
                (inl (λ k. differ (sym k))))
              (entry-Apart s.root_storage_path data_id q main r rep.base valid good
                (inl (λ k. differ (sym k)))))
      where
        kept : contents? (P.node (restored bytes) (at backup)) ≡ contents? (P.node w (at backup))
        kept = restore_main-backup os P s.root_storage_path data_id rep.base valid bytes false w

        past :
            (x : Bytes)
            → contents? (P.node w (at backup)) ≡ some x
            → IsVersion os P mb L s.root_storage_path s.master_key data_id (plain ∷ l) x
        past =
            (subst (λ c. Cell os P mb L s.root_storage_path s.master_key data_id c w) has
              (rep.cells data_id valid)).1

        holds : Has os P mb L s.root_storage_path s.master_key data_id bytes (restored bytes)
        holds =
            elim (restore_main-outcome os P s.root_storage_path data_id rep.base valid bytes false w
              (λ e. cc (e, only.1 temp (ap contents? e)))) [
                | inl e ↦ inl e
                | inr e ↦ inr (e ∙ n, kept ∙ b)
              ]

    -- With some version of the id, the newest one is found.
    present-Cell :
        (plain : Bytes) (l : List Bytes)
        → m data_id ≡ plain ∷ l
        → Cell os P mb L s.root_storage_path s.master_key data_id (plain ∷ l) w
        → (w1 : os.World) × (got ≡ (success, plain, w1)) × Rep os P mb L m s w1
    present-Cell plain l has ((bytes, inl e, sealed), past) = (
      w,
      from_main os P mb L (at main) (at backup) s.master_key rep.ready.e w plain rep.works
          (reads main plain bytes e sealed),
      rep,
    )
    present-Cell plain l has ((bytes, inr (n, e), sealed), past) = (
      restored bytes,
      from_backup_alone plain bytes n e sealed,
      restored-Rep plain bytes l has n e sealed,
    )

    abbrev present :
        (plain : Bytes) (l : List Bytes)
        → m data_id ≡ plain ∷ l
        → (w1 : os.World) × (got ≡ (success, plain, w1)) × Rep os P mb L m s w1
    present plain l has = present-Cell plain l has (
        subst (λ c. Cell os P mb L s.root_storage_path s.master_key data_id c w) has
          (rep.cells data_id valid))

    absent : m data_id ≡ [] → got.0 ≢ success
    absent has h =
        let (no_main, no_backup) =
          (subst (λ c. Cell os P mb L s.root_storage_path s.master_key data_id c w) has
            (rep.cells data_id valid)).0 in
        elim (retrieve_main-sound os P mb L (at main) (at backup) s.master_key rep.ready.e w h) [
          | inl sealed ↦ misses main no_main (ap (λ r. r.0) sealed.read)
          | inr sealed ↦ misses backup no_backup (ap (λ r. r.0) sealed.read)
        ]

  pub found-step :
      (F : IsFaultless P) (plain : Bytes) (w1 : os.World)
      → OnlyFiles os P s.root_storage_path data_id w
      → retrieve_data os mb data_id s w ≡ some (success, plain, w1)
      → (l : List Bytes) × (m data_id ≡ plain ∷ l) × Rep os P mb L m s w1
  found-step F plain w1 only h =
      let valid = retrieves-valid plain w1 h in
      let same : got ≡ (success, plain, w1) = cc (retrieves valid, h) in
      elim (List-cases (m data_id)) [
        | inl e ↦
            absurd
              (absent F only (valid, only.0) e (ap (λ (x : Errc × Bytes × os.World). x.0) same))
        | inr (v, l, e) ↦
            let (w2, there, rep2) = present F only (valid, only.0) v l e in
            let both = sym there ∙ same in
            (
              l,
              e ∙ ap (λ (x : Errc × Bytes × os.World). x.1 ∷ l) both,
              subst (Rep os P mb L m s) (ap (λ (x : Errc × Bytes × os.World). x.2) both) rep2,
            )
      ]

  pub missed-step :
      (F : IsFaultless P) (e : Errc) (out : Bytes) (w1 : os.World)
      → OnlyFiles os P s.root_storage_path data_id w
      → e ≢ success
      → retrieve_data os mb data_id s w ≡ some (e, out, w1)
      → (m data_id ≡ []) × (w ≡ w1)
  missed-step F e out w1 only n h = elim (Bool-cases (is_success (validate_data_id data_id))) [
    | inr f ↦
        let bad : validate_data_id data_id ≢ success = λ k. cc (f, (is_success_iff _).1 k) in
        (rep.no_others data_id bad, cc (rejected bad, h))
    | inl t ↦
        let valid = (is_success_iff (validate_data_id data_id)).0 t in
        let same : got ≡ (e, out, w1) = cc (retrieves valid, h) in
        let code = ap (λ (x : Errc × Bytes × os.World). x.0) same in
        (
          elim (List-cases (m data_id)) [
            | inl e' ↦ e'
            | inr (v, l, e') ↦
                let (_, there, _) = present F only (valid, only.0) v l e' in
                absurd (n (sym code ∙ ap (λ (x : Errc × Bytes × os.World). x.0) there))
          ],
          sym
                (retrieve_main-failed os P mb L (at main) (at backup) s.master_key rep.ready.e w
                  (λ k. n (sym code ∙ k))).0
              ∙ ap (λ (x : Errc × Bytes × os.World). x.2) same,
        )
  ]
