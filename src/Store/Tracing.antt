-- ===== src/Store/Tracing.antt =====
-- Where the contents of the files of one id come from after a whole `storeData` or `deleteData`.
use secure_storage.Base.{◌≡◌, ◌≢◌, ap, ◌∙◌, ◌⊎◌, inl, inr, none, [], ◌++◌, Bool-cases}
use secure_storage.Base.Text.{Str, Bytes}
use secure_storage.Error.{Errc, success, is_success, is_success_iff}
use secure_storage.Os.{Os}
use secure_storage.Os.Posix.{IsPosix, IsBase, Apart, contents?}
use secure_storage.FileUtil.{delete_file}
use secure_storage.FileUtil.Reading.{delete_file_lem, delete_file_others}
use secure_storage.FileUtil.Atomic.{atomic_write_file_others}
use secure_storage.Naming.Roles.{
  Named, Role, main, backup, temp, temp_temp, suffix, entry, file-IsName, temp_of_temp,
}
use secure_storage.Store.{back_up, delete_files}
use secure_storage.Store.Steps.{AreApart, replace_main-success}
use secure_storage.Store.Shifts.{
  Old, Shifted, deletion, Shifted-same, Old-Shifted, Shifted-trans, back_up-Shifted,
  replace_main-Shifted,
}
use secure_storage.Store.Saving.{apart, written, stored, A, stored-cases}
use secure_storage.Store.Deleting.{deleted-world, both-deleted, main-kept, backup-kept}

module _ (os : Os) (P : IsPosix os) (root data_id : Str) (base : IsBase root)
    (valid : Named data_id) (enc : Bytes) (w : os.World) where
  abbrev at : Role → Str
  at r = entry root data_id r

  abbrev out : Errc × os.World
  out = stored os P root data_id base valid enc w

  abbrev first_write : os.World
  first_write = (written os P root data_id base valid enc w).1

  abbrev paths : AreApart (at main) (at backup) (at temp)
  paths = A os P root data_id base valid enc w

  abbrev From : os.World → os.World → Type 0
  From v v' = Shifted os P (at main) (at backup) v v'

  first_write-Shifted : From w first_write
  first_write-Shifted =
      Shifted-same os P (at main) (at backup) w first_write (same main (λ e. cc) (λ e. cc))
        (same backup (λ e. cc) (λ e. cc))
    where
      same :
          (r : Role)
          → temp ≢ r
          → temp_temp ≢ r
          → contents? (P.node first_write (at r)) ≡ contents? (P.node w (at r))
      same r t tt' =
          atomic_write_file_others os P root (data_id ++ suffix temp) base
            (file-IsName data_id temp valid) enc w (at r)
            (rw temp_of_temp (apart root data_id base valid temp_temp r tt'))
            (apart root data_id base valid temp r t)

  backed_up-Shifted : From w (back_up os (at main) (at backup) first_write)
  backed_up-Shifted =
      Shifted-trans os P (at main) (at backup) w first_write _ first_write-Shifted
        (back_up-Shifted os P (at main) (at backup) (at temp) paths first_write)

  -- After an error, the main file and the backup have the contents of one of them, or none.
  pub store_encrypted-Shifted : out.0 ≢ success → From w out.1
  store_encrypted-Shifted h = elim (stored-cases os P root data_id base valid enc w) [
    | inl (f, e) ↦ rw e (
        Shifted-trans os P (at main) (at backup) w first_write _ first_write-Shifted (
          Shifted-same os P (at main) (at backup) first_write _
            (ap contents? (delete_file_others os P (at temp) (at main) first_write paths.temp_main))
            (ap contents?
              (delete_file_others os P (at temp) (at backup) first_write paths.temp_backup))))
    | inr (s, e) ↦ rw e (
        Shifted-trans os P (at main) (at backup) w _ _ backed_up-Shifted
          (replace_main-Shifted os P (at main) (at backup) (at temp) paths _ (rw e at h)))
  ]

  -- After a success too, that holds of the backup.
  pub store_encrypted-Old : Old os P (at main) (at backup) w (contents? (P.node out.1 (at backup)))
  store_encrypted-Old = elim (Bool-cases (is_success out.0)) [
    | inr f ↦ (store_encrypted-Shifted (λ k. cc (f, (is_success_iff _).1 k))).1
    | inl s ↦ elim (stored-cases os P root data_id base valid enc w) [
      | inl (f, e) ↦ absurd (cc (f, s, ap (λ (r : Errc × os.World). is_success r.0) e))
      | inr (_, e) ↦ rw e (
          Old-Shifted os P (at main) (at backup) w _ _ backed_up-Shifted (
            inr (
              inr (
                ap contents?
                  (replace_main-success os P (at main) (at backup) (at temp) paths _
                    (rw e at ((is_success_iff out.0).0 s))).1))))
    ]
  ]

module _ (os : Os) (P : IsPosix os) (main_file backup_file : Str) (main_some : main_file ≢ [])
    (backup_some : backup_file ≢ []) (m_b : Apart main_file backup_file)
    (b_m : Apart backup_file main_file) (w : os.World) where
  abbrev gone : Errc × os.World
  gone = delete_files os main_file backup_file w

  -- A deletion that fails leaves the main file, or it leaves the backup without the main file.
  pub delete_files-failed :
      gone.0 ≢ success
      → ((P.node w main_file ≢ none)
          × (P.node gone.1 main_file ≡ P.node w main_file)
          × ((P.node gone.1 backup_file ≡ none)
              ⊎ (P.node gone.1 backup_file ≡ P.node w backup_file)))
        ⊎ ((P.node w backup_file ≢ none)
            × (P.node gone.1 main_file ≡ none)
            × (P.node gone.1 backup_file ≡ P.node w backup_file))
  delete_files-failed h =
      rw (deleted-world os P main_file backup_file main_some backup_some m_b b_m w)
        (elim (delete_file_lem os P main_file w) [
          | inr (inr (_, e, _)) ↦ absurd (main_some e)
          | inr (inl (_, n, same)) ↦ inl (n, kept ∙ same main_file, dropped)
          | inl (d, _, none_left) ↦ elim (delete_file_lem os P backup_file step_one) [
            | inr (inr (_, e, _)) ↦ absurd (backup_some e)
            | inl (d', _, _) ↦
                absurd
                  (h (both-deleted os P main_file backup_file main_some backup_some m_b b_m w d d'))
            | inr (inl (_, n, same)) ↦
                inr ((λ k. n (kept' ∙ k)), kept ∙ none_left, same backup_file ∙ kept')
          ]
        ])
    where
      step_one : os.World
      step_one = (delete_file os main_file w).1

      kept : P.node (delete_file os backup_file step_one).1 main_file ≡ P.node step_one main_file
      kept = main-kept os P main_file backup_file main_some backup_some m_b b_m w

      kept' : P.node step_one backup_file ≡ P.node w backup_file
      kept' = backup-kept os P main_file backup_file main_some backup_some m_b b_m w

      dropped :
          let after = P.node (delete_file os backup_file step_one).1 backup_file in
          (after ≡ none) ⊎ (after ≡ P.node w backup_file)
      dropped = elim (deletion os P main_file backup_file backup_file step_one) [
        | inl e ↦ inl e
        | inr e ↦ inr (e ∙ kept')
      ]
