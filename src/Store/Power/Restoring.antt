-- ===== src/Store/Power/Restoring.antt =====
-- The restoration of the main file at the end of `SecureStore::retrieveData`, on a disk that loses its
-- power at some point.
use secure_storage.Base.{
  ◌≡◌, ◌≢◌, sym, ◌∙◌, ◌⊎◌, inl, inr, Bool, true, false, Option, none, some, ◌++◌, arith, Bool-cases,
}
use secure_storage.Base.Text.{c_str, Str, Bytes}
use secure_storage.Error.{is_success-success}
use secure_storage.Os.{Os}
use secure_storage.Os.Posix.{IsPosix, IsBase, Node, device}
use secure_storage.Os.Durable.{Anywhere, Elsewhere, IsDurable}
use secure_storage.FileUtil.{delete_file, atomic_write_file}
use secure_storage.FileUtil.Atomic.{empty-entry}
use secure_storage.Naming.Roles.{
  Named, Role, main, backup, temp, suffix, entry, temp_of, file-IsName,
}
use secure_storage.Store.{restore_main}
use secure_storage.Store.Saving.{apart, directory-ready}
use secure_storage.Store.Power.{IsSafe, IsSafe-mono, IsSafe-call}
use secure_storage.Store.Power.Files.{delete_file-Safe, write_and_rename-Safe}
use secure_storage.Store.Power.Writing.{Alone, OrWritten, atomic_write_file-After}

abbrev pub OrGone : (Option Node → Type 0) → Option Node → Type 0
OrGone W n = W n ⊎ (n ≡ none)

module _ (os : Os) (P : IsPosix os) (D : IsDurable P) (root data_id : Str) (base : IsBase root)
    (valid : Named data_id) (W B : Option Node → Type 0) (c : Bytes) where
  abbrev at : Role → Str
  at r = entry root data_id r

  abbrev One : Role → (Option Node → Type 0) → os.World → Type 0
  One r T w = IsSafe os P D (at r) (at r) (Alone T) w

  abbrev Copied : os.World → Type 0
  Copied w = IsSafe os P D (at main) (at main) (OrWritten (OrGone W) c) w

  wider : (w : os.World) → One main W w → One main (OrGone W) w
  wider w = IsSafe-mono os P D (at main) (at main) (Alone W) (Alone (OrGone W)) w (λ m b x. inl x)

  remove_main-Safe :
      (w : os.World) → One main W w → One main (OrGone W) (os.remove w (c_str (at main))).1
  remove_main-Safe w safe = elim (Bool-cases (os.remove w (c_str (at main))).0) [
    | inl t ↦
        let gone = P.removed w (at main) t in
        IsSafe-call os P D (at main) (at main) (Alone (OrGone W)) w _ Anywhere (Elsewhere (at main))
          (wider w safe) (D.remove_keeps w (at main)) tt tt (inr gone) (λ n. absurd (n gone))
          (λ n. absurd (n gone))
    | inr f ↦
        let same = P.remove_failed w (at main) (at main) f in
        let synced : P.node (os.remove w (c_str (at main))).1 (at main) ≢ none
            → D.Synced (os.remove w (c_str (at main))).1 (at main) =
          λ n. D.remove_failed w (at main) (at main) f (safe.main_synced (λ k. n (same ∙ k))) in
        IsSafe-call os P D (at main) (at main) (Alone (OrGone W)) w _ Anywhere (Elsewhere (at main))
          (wider w safe) (D.remove_keeps w (at main)) tt tt (rw same (inl safe.now)) synced synced
  ]

  delete_main-Safe :
      (w : os.World) → One main W w → One main (OrGone W) (delete_file os (at main) w).1
  unfolding delete_file
  delete_main-Safe w safe = ground (arith, remove_main-Safe w safe, wider w safe)

  -- What the write of the copy relies on.
  pub record Fit (w : os.World) : Type 0 where
    pub there : P.node w (at backup) ≢ none
    pub sole : D.Sole w (at temp)
    pub no_device : P.node w (at temp) ≢ some device

  delete_main-Fit : (w : os.World) → Fit w → Fit (delete_file os (at main) w).1
  unfolding delete_file
  delete_main-Fit w fit = record {
    there = ground (
      arith,
      fit.there,
      P.remove_others w (at main) (at backup) (apart root data_id base valid main backup (λ e. cc)),
    );
    sole = ground (
      arith,
      fit.sole,
      D.remove_sole w (at main) (at temp) (apart root data_id base valid main temp (λ e. cc))
          fit.sole,
    );
    no_device = ground (
      arith,
      fit.no_device,
      P.remove_others w (at main) (at temp) (apart root data_id base valid main temp (λ e. cc)),
    );
  }

  copy-Safe :
      (w : os.World) → Fit w → One main (OrGone W) w → Copied (atomic_write_file os (at main) c w).1
  copy-Safe w fit =
      atomic_write_file-After os P D root (data_id ++ suffix main) base
        (file-IsName data_id main valid) (OrGone W) c w
        (directory-ready os P root data_id base valid c w backup main fit.there)
        (rw (temp_of root data_id) fit.sole) (rw (temp_of root data_id) fit.no_device)

  pub restore_main-Safe :
      (was_read : Bool) (w : os.World)
      → Fit w
      → One main W w
      → Copied (restore_main os (at main) c was_read w)
  unfolding restore_main
  restore_main-Safe true w fit safe = copy-Safe _ (delete_main-Fit w fit) (delete_main-Safe w safe)
  restore_main-Safe false w fit safe = copy-Safe w fit (wider w safe)

  -- The backup is not touched.
  copy-quiet :
      (w : os.World) → Fit w → One backup B w → One backup B (atomic_write_file os (at main) c w).1
  unfolding atomic_write_file
  copy-quiet w fit safe =
      rw
        (
          empty-entry (data_id ++ suffix main) base,
          directory-ready os P root data_id base valid c w backup main fit.there,
          is_success-success,
        )
        (write_and_rename-Safe os P D (at backup) (at backup) (Alone B) (at temp)
          (apart root data_id base valid temp backup (λ e. cc))
          (apart root data_id base valid temp backup (λ e. cc)) (at main)
          (apart root data_id base valid main backup (λ e. cc))
          (apart root data_id base valid main backup (λ e. cc))
          (apart root data_id base valid temp main (λ e. cc)) c w fit.sole safe
          (sym (temp_of root data_id))).0

  pub restore_main-quiet :
      (was_read : Bool) (w : os.World)
      → Fit w
      → One backup B w
      → One backup B (restore_main os (at main) c was_read w)
  unfolding restore_main
  restore_main-quiet false w fit safe = copy-quiet w fit safe
  restore_main-quiet true w fit safe = copy-quiet _ (delete_main-Fit w fit) (
      delete_file-Safe os P D (at backup) (at backup) (Alone B) (at main)
        (apart root data_id base valid main backup (λ e. cc))
        (apart root data_id base valid main backup (λ e. cc)) w safe)
