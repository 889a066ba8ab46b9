-- ===== src/Store/Refinement/Asking.antt =====
-- The calls of `SecureStore::dataExists` and `listDataIds` as steps of the versions.
use mathlib.Core.List.{Memᴰ}
use secure_storage.Base.{
  ◌≡◌, ◌≢◌, ◌↔◌, refl, sym, ap, subst, ◌∙◌, ◌⊎◌, inl, inr, Bool, true, false, none, List, [], ◌∷◌,
  arith, Bool-cases,
}
use secure_storage.Base.Text.{Str, Bytes}
use secure_storage.Error.{success, is_success, is_success_iff}
use secure_storage.Os.{Os}
use secure_storage.Os.Posix.{IsPosix}
use secure_storage.Crypto.{Mbedtls, IsLawful}
use secure_storage.Naming.{validate_data_id}
use secure_storage.Naming.Order.{IsAscending}
use secure_storage.Naming.Roles.{Named, Role, main, backup, entry}
use secure_storage.Store.{SecureStore, data_exists, list_data_ids}
use secure_storage.Store.Deleting.{data_exists_iff}
use secure_storage.Store.Listing.{list_data_ids_iff}
use secure_storage.Store.Refinement.{Versions, some_version, OnlyFiles}
use secure_storage.Store.Refinement.Cells.{Cell}
use secure_storage.Store.Refinement.Frame.{Rep}

same_truth : (a b : Bool) → ((a ≡ true) ↔ (b ≡ true)) → a ≡ b
same_truth true b e = sym (e.0 refl)
same_truth false true e = e.1 refl
same_truth false false e = refl

module _ (os : Os) (P : IsPosix os) (mb : Mbedtls) (L : IsLawful mb) (m : Versions)
    (s : SecureStore mb) (w : os.World) (rep : Rep os P mb L m s w) where
  module _ (data_id : Str) where
    abbrev at : Role → Str
    at r = entry s.root_storage_path data_id r

    rejected : validate_data_id data_id ≢ success → data_exists os mb data_id s w ≡ false
    unfolding data_exists
    rejected n = ground (arith, rep.ready.initialized, is_success_iff (validate_data_id data_id))

    -- A cell has some version exactly if one of the two files is there.
    versions-Cell :
        OnlyFiles os P s.root_storage_path data_id w
        → (l : List Bytes) → Cell os P mb L s.root_storage_path s.master_key data_id l w
        → (some_version l ≡ true) ↔ ((P.node w (at main) ≢ none) ⊎ (P.node w (at backup) ≢ none))
    versions-Cell only [] ((no_main, no_backup), past) = (
      λ e. absurd (cc),
      λ there.
          absurd
            (elim there [ inl n ↦ n (only.1 main no_main) | inr n ↦ n (only.1 backup no_backup) ]),
    )
    versions-Cell only (plain ∷ l) ((bytes, inl e, sealed), past) =
        (λ _. inl (λ k. cc (e, k)), λ _. refl)
    versions-Cell only (plain ∷ l) ((bytes, inr (n, e), sealed), past) =
        (λ _. inr (λ k. cc (e, k)), λ _. refl)

    -- `dataExists` is true exactly if there is some version.
    pub asked-step :
        (b : Bool)
        → OnlyFiles os P s.root_storage_path data_id w
        → data_exists os mb data_id s w ≡ b
        → some_version (m data_id) ≡ b
    asked-step b only h = elim (Bool-cases (is_success (validate_data_id data_id))) [
      | inr f ↦
          let bad : validate_data_id data_id ≢ success = λ k. cc (f, (is_success_iff _).1 k) in
          ap some_version (rep.no_others data_id bad) ∙ sym (rejected bad) ∙ h
      | inl t ↦
          let valid : Named data_id = ((is_success_iff (validate_data_id data_id)).0 t, only.0) in
          let cell = versions-Cell only (m data_id) (rep.cells data_id valid) in
          let exists = data_exists_iff os P mb data_id s w rep.ready rep.base valid in
          same_truth _ _ ((λ e. exists.1 (cell.0 e)), (λ e. cell.1 (exists.0 e))) ∙ h
    ]

  -- What `listDataIds` gives are ids with some version.
  pub listed-step :
      (ids : List Str)
      → list_data_ids os mb s w ≡ (success, ids)
      → IsAscending ids × ((q : Str) → Memᴰ q ids → m q ≢ [])
  listed-step ids h =
      let (ascending, listed) = list_data_ids_iff os P mb s w rep.ready rep.base ids h in
      (
        ascending,
        λ q is_in none_left.
            let (valid, (bytes, n)) = (listed q).0 is_in in
            let cell =
              subst (λ l. Cell os P mb L s.root_storage_path s.master_key q l w) none_left
                (rep.cells q valid) in
            cc (cell.0.0, n),
      )
