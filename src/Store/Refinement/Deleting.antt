-- ===== src/Store/Refinement/Deleting.antt =====
-- The calls of `SecureStore::deleteData` as steps of the versions.
use secure_storage.Base.{
  ◌≡◌, ◌≢◌, refl, sym, ap, subst, ◌∙◌, inl, inr, none, Bool-cases, List, [], arith,
}
use secure_storage.Base.Text.{IsPlain, Str, Bytes}
use secure_storage.Error.{Errc, success, is_success, is_success_iff}
use secure_storage.Os.{Os}
use secure_storage.Os.Posix.{IsPosix, contents?}
use secure_storage.Crypto.{Mbedtls, IsLawful}
use secure_storage.Naming.{validate_data_id}
use secure_storage.Naming.Roles.{Named, Role, main, backup, entry, entry-ne-nil}
use secure_storage.Store.{SecureStore, delete_data}
use secure_storage.Store.Saving.{apart}
use secure_storage.Store.Tracing.{delete_files-failed}
use secure_storage.Store.Deleting.{removal, delete_data-ready, removal_lem, delete_data_others}
use secure_storage.Store.Refinement.{Versions, RollsBack, keeps, change, OnlyFiles}
use secure_storage.Store.Refinement.Cells.{Cell, Cell-main-kept, Cell-backup-kept}
use secure_storage.Store.Refinement.Frame.{Rep, call-Rep, change-same, change-other, change_own}

module _ (os : Os) (P : IsPosix os) (mb : Mbedtls) (L : IsLawful mb) (m : Versions)
    (s : SecureStore mb) (w : os.World) (rep : Rep os P mb L m s w) (data_id : Str) where
  abbrev at : Role → Str
  at r = entry s.root_storage_path data_id r

  deletes-valid :
      (w1 : os.World)
      → delete_data os mb data_id s w ≡ (success, w1)
      → validate_data_id data_id ≡ success
  unfolding delete_data
  deletes-valid w1 h =
      ground (arith, rep.ready.initialized, is_success_iff (validate_data_id data_id))

  rejected :
      validate_data_id data_id ≢ success
      → delete_data os mb data_id s w ≡ (validate_data_id data_id, w)
  unfolding delete_data
  rejected n = ground (arith, rep.ready.initialized, is_success_iff (validate_data_id data_id))

  -- A deletion of a valid id that leaves some versions of it.
  changed-Rep :
      (e : Errc) (w1 : os.World) (l : List Bytes)
      → Named data_id
      → delete_data os mb data_id s w ≡ (e, w1)
      → Cell os P mb L s.root_storage_path s.master_key data_id l w1
      → Rep os P mb L (change data_id l m) s w1
  changed-Rep e w1 l valid h cell =
      call-Rep os P mb L m (change data_id l m) s s w w1 data_id rep rep.ready rep.works refl refl
        valid.0 (change-other data_id l m) (rw change-same cell)
        (λ q r good n. ap contents? (
          subst
            (λ v.
              P.node v (entry s.root_storage_path q r) ≡ P.node w (entry s.root_storage_path q r))
            (ap (λ (x : Errc × os.World). x.1) h)
            (delete_data_others os P mb data_id s w rep.ready rep.base valid q r good n)))

  pub deleted-Rep :
      (w1 : os.World)
      → IsPlain data_id
      → delete_data os mb data_id s w ≡ (success, w1)
      → Rep os P mb L (change data_id [] m) s w1
  deleted-Rep w1 z h = changed-Rep success w1 [] valid h (gone, λ bytes e. absurd (cc (gone.1, e)))
    where
      valid : Named data_id
      valid = (deletes-valid w1 h, z)

      gone : (contents? (P.node w1 (at main)) ≡ none) × (contents? (P.node w1 (at backup)) ≡ none)
      gone =
          let same = sym (delete_data-ready os P mb data_id s w rep.ready rep.base valid) ∙ h in
          let world = ap (λ (x : Errc × os.World). x.1) same in
          elim (removal_lem os P mb data_id s w rep.ready rep.base valid) [
            | inl (_, no_main, no_backup) ↦ (
              ap contents? (subst (λ v. P.node v (at main) ≡ none) world no_main),
              ap contents? (subst (λ v. P.node v (at backup) ≡ none) world no_backup),
            )
            | inr (failed, _) ↦ absurd (cc (failed, ap (λ (x : Errc × os.World). x.0) same))
          ]

  module _ (only : OnlyFiles os P s.root_storage_path data_id w) (valid : Named data_id) where
    abbrev after : Errc × os.World
    after = removal os P mb data_id s w rep.ready rep.base valid

    -- What a deletion that fails leaves: the newest version, or one before it.
    failed-Cell :
        after.0 ≢ success
        → (l : List Bytes) × RollsBack (m data_id) l
          × Cell os P mb L s.root_storage_path s.master_key data_id l after.1
    failed-Cell n =
        elim (delete_files-failed os P (at main) (at backup)
          (entry-ne-nil s.root_storage_path data_id main rep.base)
          (entry-ne-nil s.root_storage_path data_id backup rep.base)
          (apart s.root_storage_path data_id rep.base valid main backup (λ e. cc))
          (apart s.root_storage_path data_id rep.base valid backup main (λ e. cc)) w n) [
            | inl (there, same, b) ↦ (
              m data_id,
              keeps,
              Cell-main-kept os P mb L s.root_storage_path s.master_key data_id (m data_id) w
                  after.1 (rep.cells data_id valid) (λ e. there (only.1 main e)) (ap contents? same)
                  (elim b [ inl e ↦ inl (ap contents? e) | inr e ↦ inr (ap contents? e) ]),
            )
            | inr (there, gone, same) ↦
                Cell-backup-kept os P mb L s.root_storage_path s.master_key data_id (m data_id) w
                  after.1 (rep.cells data_id valid) (λ e. there (only.1 backup e))
                  (ap contents? gone) (ap contents? same)
          ]

  -- A deletion that fails leaves the newest version or rolls back to one before it.
  pub undeleted-Rep :
      (e : Errc) (w1 : os.World)
      → OnlyFiles os P s.root_storage_path data_id w
      → e ≢ success
      → delete_data os mb data_id s w ≡ (e, w1)
      → (l : List Bytes) × RollsBack (m data_id) l × Rep os P mb L (change data_id l m) s w1
  undeleted-Rep e w1 only n h = elim (Bool-cases (is_success (validate_data_id data_id))) [
    | inr f ↦
        let bad : validate_data_id data_id ≢ success = λ k. cc (f, (is_success_iff _).1 k) in
        (
          m data_id,
          keeps,
          subst (λ n'. Rep os P mb L n' s w1) (λ i q. sym (change_own data_id m q) i)
              (subst (Rep os P mb L m s) (cc (rejected bad, h)) rep),
        )
    | inl t ↦
        let valid : Named data_id = ((is_success_iff (validate_data_id data_id)).0 t, only.0) in
        let same = sym (delete_data-ready os P mb data_id s w rep.ready rep.base valid) ∙ h in
        let (l, rolls, cell) =
          failed-Cell only valid (λ k. n (sym (ap (λ (x : Errc × os.World). x.0) same) ∙ k)) in
        (
          l,
          rolls,
          changed-Rep e w1 l valid h (
              subst (Cell os P mb L s.root_storage_path s.master_key data_id l)
                (ap (λ (x : Errc × os.World). x.1) same) cell),
        )
  ]
