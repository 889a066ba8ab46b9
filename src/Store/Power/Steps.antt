-- ===== src/Store/Power/Steps.antt =====
-- The steps of `storeData` that move the main file and the backup, on a disk that may lose its power.
use secure_storage.Base.{
  ◌≡◌, ◌≢◌, refl, sym, ◌∙◌, inl, inr, true, false, ◌&&◌, not, none, some, arith, Bool-cases,
}
use secure_storage.Base.Text.{c_str, Str, Bytes}
use secure_storage.Os.{Os}
use secure_storage.Os.Posix.{IsPosix, Apart, file}
use secure_storage.Os.Durable.{Anywhere, Elsewhere, Keeps, IsDurable}
use secure_storage.FileUtil.{delete_file, path_exists}
use secure_storage.FileUtil.Reading.{path_exists_iff}
use secure_storage.Store.{back_up, restore_backup, replace_main}
use secure_storage.Store.Steps.{AreApart, prepared, prepared_others}
use secure_storage.Store.Power.{Holds, Holds-mono, OrNew, IsSafe, IsSafe-mono, IsSafe-call}
use secure_storage.Store.Power.Files.{delete_file-Safe}

module _ (os : Os) (P : IsPosix os) (D : IsDurable P) (main_file backup_file temp_file : Str)
    (A : AreApart main_file backup_file temp_file) where
  abbrev Safe : (Bytes → Type 0) → os.World → Type 0
  Safe V w = IsSafe os P D main_file backup_file (Holds V) w

  -- A rename that fails.
  rename_failed-Safe :
      (V : Bytes → Type 0) (w : os.World) (p q : Str)
      → (os.rename w (c_str p) (c_str q)).0 ≡ false
      → Safe V w
      → Safe V (os.rename w (c_str p) (c_str q)).1
  rename_failed-Safe V w p q f safe =
      IsSafe-call os P D main_file backup_file (Holds V) w _ Anywhere (λ r. Apart p r × Apart q r)
        safe (D.rename_keeps w p q) tt tt
        (rw (P.rename_failed w p q main_file f, P.rename_failed w p q backup_file f) safe.now)
        (λ n.
          D.rename_failed w p q main_file f
            (safe.main_synced (λ k. n (P.rename_failed w p q main_file f ∙ k))))
        (λ n.
          D.rename_failed w p q backup_file f
            (safe.backup_synced (λ k. n (P.rename_failed w p q backup_file f ∙ k))))

  -- While there is a main file, the backup is not needed.
  module _ (V : Bytes → Type 0) (w : os.World) (there : P.node w main_file ≢ none)
      (safe : Safe V w) where
    main-holds : (bytes : Bytes) × V bytes × (P.node w main_file ≡ some (file bytes))
    main-holds =
        let (bytes, v, at) = safe.now in
        (bytes, v, elim at [ inl m ↦ m | inr (n, b) ↦ absurd (there n) ])

    remove_backup-Safe : Safe V (os.remove w (c_str backup_file)).1
    remove_backup-Safe = elim (Bool-cases (os.remove w (c_str backup_file)).0) [
      | inl t ↦
          let same = P.remove_others w backup_file main_file A.backup_main in
          let (bytes, v, m) = main-holds in
          IsSafe-call os P D main_file backup_file (Holds V) w _ Anywhere (Elsewhere backup_file)
            safe (D.remove_keeps w backup_file) tt tt (bytes, v, inl (same ∙ m))
            (λ _.
              Keeps.synced (D.remove_keeps w backup_file) main_file A.backup_main
                (safe.main_synced there))
            (λ n. absurd (n (P.removed w backup_file t)))
      | inr f ↦
          let main_same = P.remove_failed w backup_file main_file f in
          let backup_same = P.remove_failed w backup_file backup_file f in
          IsSafe-call os P D main_file backup_file (Holds V) w _ Anywhere (Elsewhere backup_file)
            safe (D.remove_keeps w backup_file) tt tt (rw (main_same, backup_same) safe.now)
            (λ n.
              D.remove_failed w backup_file main_file f (safe.main_synced (λ k. n (main_same ∙ k))))
            (λ n.
              D.remove_failed w backup_file backup_file f
                (safe.backup_synced (λ k. n (backup_same ∙ k))))
    ]

    move_to_backup-Safe : Safe V (os.rename w (c_str main_file) (c_str backup_file)).1
    move_to_backup-Safe = elim (Bool-cases (os.rename w (c_str main_file) (c_str backup_file)).0) [
      | inr f ↦ rename_failed-Safe V w main_file backup_file f safe
      | inl t ↦
          let (bytes, v, m) = main-holds in
          let gone = P.renamed_from w main_file backup_file A.main_backup t in
          IsSafe-call os P D main_file backup_file (Holds V) w _ Anywhere
            (λ r. Apart main_file r × Apart backup_file r) safe
            (D.rename_keeps w main_file backup_file) tt tt
            (bytes, v, inr (gone, P.renamed_to w main_file backup_file A.main_backup t ∙ m))
            (λ n. absurd (n gone))
            (λ _. D.rename_synced w main_file backup_file A.main_backup t (safe.main_synced there))
    ]

    delete_backup-Safe : Safe V (delete_file os backup_file w).1
    unfolding delete_file
    delete_backup-Safe = ground (arith, remove_backup-Safe, safe)

  prepared-Safe :
      (V : Bytes → Type 0) (w : os.World)
      → P.node w main_file ≢ none
      → Safe V w
      → Safe V (prepared os P main_file backup_file temp_file A w)
  prepared-Safe V w there safe = ground (arith, delete_backup-Safe V w there safe)

  is_there : (w : os.World) (p : Str) → path_exists os w p ≡ true → P.node w p ≢ none
  is_there w p e = ((path_exists_iff os P w p).0 e).1

  pub back_up-Safe :
      (V : Bytes → Type 0) (w : os.World) → Safe V w → Safe V (back_up os main_file backup_file w)
  unfolding back_up
  back_up-Safe V w safe = elim (Bool-cases (path_exists os w main_file)) [
    | inr f ↦ rw (f, back_up) safe
    | inl t ↦
        let there = is_there w main_file t in
        rw (t, back_up)
          (move_to_backup-Safe V (prepared os P main_file backup_file temp_file A w)
            (λ n. there (
              sym (prepared_others os P main_file backup_file temp_file A w main_file A.backup_main)
              ∙ n))
            (prepared-Safe V w there safe))
  ]

  -- Another file that is on the disk stays there.
  pub back_up-Synced :
      (w : os.World) (q : Str)
      → Apart main_file q
      → Apart backup_file q
      → D.Synced w q
      → D.Synced (back_up os main_file backup_file w) q
  unfolding back_up delete_file
  back_up-Synced w q a b s = ground (
    arith,
    Keeps.synced (D.remove_keeps w backup_file) q b s,
    Keeps.synced (D.rename_keeps w main_file backup_file) q (a, b) s,
    Keeps.synced (D.rename_keeps (os.remove w (c_str backup_file)).1 main_file backup_file) q
        (a, b),
  )

  restore_backup-Safe :
      (V : Bytes → Type 0) (w : os.World)
      → Safe V w
      → Safe V (restore_backup os main_file backup_file w)
  unfolding restore_backup
  restore_backup-Safe V w safe =
      elim (Bool-cases (path_exists os w backup_file && not (path_exists os w main_file))) [
        | inr f ↦ rw (f, restore_backup) safe
        | inl t ↦
            rw (t, restore_backup)
              (elim (Bool-cases (os.rename w (c_str backup_file) (c_str main_file)).0) [
                | inr f ↦ rename_failed-Safe V w backup_file main_file f safe
                | inl r ↦
                    let there = is_there w backup_file (ground arith) in
                    let none_there : path_exists os w main_file ≡ false = ground arith in
                    let (bytes, v, at) = safe.now in
                    let b : P.node w backup_file ≡ some (file bytes) = elim at [
                      | inl m ↦ absurd (
                          cc (
                            none_there,
                            (path_exists_iff os P w main_file).1 (A.main_some, λ k. cc),
                          ))
                      | inr (_, b) ↦ b
                    ] in
                    let gone = P.renamed_from w backup_file main_file A.backup_main r in
                    IsSafe-call os P D main_file backup_file (Holds V) w _ Anywhere
                      (λ x. Apart backup_file x × Apart main_file x) safe
                      (D.rename_keeps w backup_file main_file) tt tt
                      (bytes, v, inl (P.renamed_to w backup_file main_file A.backup_main r ∙ b))
                      (λ _.
                        D.rename_synced w backup_file main_file A.backup_main r
                          (safe.backup_synced there))
                      (λ n. absurd (n gone))
              ])
      ]

  pub replace_main-Safe :
      (V : Bytes → Type 0) (new : Bytes) (w : os.World)
      → Safe V w
      → P.node w temp_file ≡ some (file new)
      → D.Synced w temp_file
      → Safe (OrNew V new) (replace_main os main_file backup_file temp_file w).1
  unfolding replace_main
  replace_main-Safe V new w safe n synced =
      let wider =
        IsSafe-mono os P D main_file backup_file (Holds V) (Holds (OrNew V new)) w
          (λ m b. Holds-mono V (OrNew V new) m b (λ _ v. inl v)) safe in
      elim (Bool-cases (os.rename w (c_str temp_file) (c_str main_file)).0) [
        | inr f ↦
            rw (f, replace_main)
              (delete_file-Safe os P D main_file backup_file (Holds (OrNew V new)) temp_file
                A.temp_main A.temp_backup _
                (restore_backup-Safe (OrNew V new) _
                  (rename_failed-Safe (OrNew V new) w temp_file main_file f wider)))
        | inl t ↦
            let b = P.rename_others w temp_file main_file backup_file A.temp_backup A.main_backup in
            rw (t, replace_main)
              (IsSafe-call os P D main_file backup_file (Holds (OrNew V new)) w _ Anywhere
                (λ x. Apart temp_file x × Apart main_file x) wider
                (D.rename_keeps w temp_file main_file) tt tt
                (new, inr refl, inl (P.renamed_to w temp_file main_file A.temp_main t ∙ n))
                (λ _. D.rename_synced w temp_file main_file A.temp_main t synced)
                (λ k.
                  Keeps.synced (D.rename_keeps w temp_file main_file) backup_file
                    (A.temp_backup, A.main_backup) (safe.backup_synced (λ e. k (b ∙ e)))))
      ]
