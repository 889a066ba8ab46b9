-- ===== src/Store/Power/Files.antt =====
-- `FileUtil::atomicWriteFile` and `deleteFile` of other files than those of the data, on a disk that may
-- lose its power.
use secure_storage.Base.{
  Option, ℕ, subst, ◌≡◌, inl, inr, some, [], ◌∷◌, arith, Option-cases, if◌then◌else◌, ◌++◌,
}
use secure_storage.Base.Text.{c_str, Str, Bytes, empty}
use secure_storage.Error.{success, is_success, is_success_iff}
use secure_storage.Os.{Os}
use secure_storage.Os.Posix.{IsPosix, Apart, Node}
use secure_storage.Os.Crash.{mortal}
use secure_storage.Os.Crash.Laws.{mortal-IsPosix}
use secure_storage.Os.Durable.Mortal.{mortal-IsDurable}
use secure_storage.Os.Durable.{Anywhere, Elsewhere, Keeps, IsDurable}
use secure_storage.FileUtil.{
  delete_file, abandon, finish_temporary, fill_temporary, write_temporary, sync_directory,
  commit_temporary, get_directory, write_and_rename, temp_file_util_suffix,
}
use secure_storage.Store.Power.{IsSafe, IsSafe-quiet}

module _ (os : Os) (P : IsPosix os) (D : IsDurable P) (main_file backup_file : Str)
    (T : Option Node → Option Node → Type 0) where
  abbrev pub Safe : os.World → Type 0
  Safe w = IsSafe os P D main_file backup_file T w

  fsync-Safe : (w : os.World) (fd : ℕ) → Safe w → Safe (os.fsync w fd).1
  fsync-Safe w fd =
      IsSafe-quiet os P D main_file backup_file T w _ Anywhere Anywhere (D.fsync_keeps w fd)
        (tt, tt) (tt, tt) (P.fsync_node w fd main_file) (P.fsync_node w fd backup_file)

  close-Safe : (w : os.World) (fd : ℕ) → Safe w → Safe (os.close w fd).1
  close-Safe w fd =
      IsSafe-quiet os P D main_file backup_file T w _ Anywhere Anywhere (D.close_keeps w fd)
        (tt, tt) (tt, tt) (P.close_node w fd main_file) (P.close_node w fd backup_file)

  pub sync_directory-Safe : (dir : Str) (w : os.World) → Safe w → Safe (sync_directory os dir w)
  unfolding sync_directory
  sync_directory-Safe dir w safe = elim (Option-cases (os.open_directory w (c_str path)).0) [
    | inl e ↦ rw (e, sync_directory) opened
    | inr (fd, e) ↦ rw (e, sync_directory) (close-Safe _ fd (fsync-Safe _ fd opened))
  ]
    where
      path : Str
      path = if empty dir then b'.' ∷ [] else dir

      opened : Safe (os.open_directory w (c_str path)).1
      opened =
          IsSafe-quiet os P D main_file backup_file T w _ Anywhere Anywhere
            (D.open_directory_keeps w path) (tt, tt) (tt, tt)
            (P.open_directory_node w path main_file) (P.open_directory_node w path backup_file) safe

  sync_directory-Synced :
      (dir : Str) (w : os.World) (r : Str) → D.Synced w r → D.Synced (sync_directory os dir w) r
  unfolding sync_directory
  sync_directory-Synced dir w r s = elim (Option-cases (os.open_directory w (c_str path)).0) [
    | inl e ↦ rw (e, sync_directory) opened
    | inr (fd, e) ↦
        rw (e, sync_directory)
          (Keeps.synced (D.close_keeps _ fd) r tt (Keeps.synced (D.fsync_keeps _ fd) r tt opened))
  ]
    where
      path : Str
      path = if empty dir then b'.' ∷ [] else dir

      opened : D.Synced (os.open_directory w (c_str path)).1 r
      opened = Keeps.synced (D.open_directory_keeps w path) r tt s

  -- A file at another path than the two.
  module _ (temp : Str) (t_m : Apart temp main_file) (t_b : Apart temp backup_file) where
    pub remove-Safe : (w : os.World) → Safe w → Safe (os.remove w (c_str temp)).1
    remove-Safe w =
        IsSafe-quiet os P D main_file backup_file T w _ Anywhere (Elsewhere temp)
          (D.remove_keeps w temp) (tt, tt) (t_m, t_b) (P.remove_others w temp main_file t_m)
          (P.remove_others w temp backup_file t_b)

    pub delete_file-Safe : (w : os.World) → Safe w → Safe (delete_file os temp w).1
    unfolding delete_file
    delete_file-Safe w safe = ground (arith, remove-Safe w)

    open-Safe : (w : os.World) → D.Sole w temp → Safe w → Safe (os.open_write w (c_str temp)).1
    open-Safe w sole =
        IsSafe-quiet os P D main_file backup_file T w _ (Elsewhere temp) (Elsewhere temp)
          (D.open_keeps w temp sole) (t_m, t_b) (t_m, t_b) (P.open_others w temp main_file t_m)
          (P.open_others w temp backup_file t_b)

    write-Safe :
        (fd : ℕ) (data' : Bytes) (w : os.World)
        → P.target w fd ≡ some (c_str temp)
        → D.Sole w temp
        → Safe w
        → Safe (os.write w fd data').1
    write-Safe fd data' w t sole =
        IsSafe-quiet os P D main_file backup_file T w _ (Elsewhere temp) (Elsewhere temp)
          (D.write_keeps w fd temp data' t sole) (t_m, t_b) (t_m, t_b)
          (P.write_others w fd temp main_file data' t t_m)
          (P.write_others w fd temp backup_file data' t t_b)

    abandon-Safe : (fd : ℕ) (w : os.World) → Safe w → Safe (abandon os fd temp w).1
    unfolding abandon
    abandon-Safe fd w safe = remove-Safe _ (close-Safe w fd safe)

    finish_temporary-Safe :
        (fd : ℕ) (w : os.World) → Safe w → Safe (finish_temporary os fd temp w).1
    unfolding finish_temporary
    finish_temporary-Safe fd w safe = ground (
      arith,
      fsync-Safe w fd safe,
      close-Safe (os.fsync w fd).1 fd,
      remove-Safe (os.close (os.fsync w fd).1 fd).1,
      abandon-Safe fd (os.fsync w fd).1,
    )

    -- After a success, the file is on the disk.
    finish_temporary-Synced :
        (fd : ℕ) (w : os.World)
        → P.target w fd ≡ some (c_str temp)
        → (finish_temporary os fd temp w).0 ≡ success
        → D.Synced (finish_temporary os fd temp w).1 temp
    unfolding finish_temporary abandon
    finish_temporary-Synced fd w t h = ground (
      arith,
      D.fsync_synced w fd temp t,
      Keeps.synced (D.close_keeps (os.fsync w fd).1 fd) temp tt,
    )

    fill_temporary-Safe :
        (fd : ℕ) (data' : Bytes) (w : os.World)
        → P.target w fd ≡ some (c_str temp)
        → D.Sole w temp
        → Safe w
        → Safe (fill_temporary os fd temp data' w).1
    unfolding fill_temporary
    fill_temporary-Safe fd data' w t sole safe = ground (
      arith,
      write-Safe fd data' w t sole safe,
      finish_temporary-Safe fd w safe,
      finish_temporary-Safe fd (os.write w fd data').1,
      abandon-Safe fd (os.write w fd data').1,
    )

    fill_temporary-Synced :
        (fd : ℕ) (data' : Bytes) (w : os.World)
        → P.target w fd ≡ some (c_str temp)
        → (fill_temporary os fd temp data' w).0 ≡ success
        → D.Synced (fill_temporary os fd temp data' w).1 temp
    unfolding fill_temporary abandon
    fill_temporary-Synced fd data' w t h = ground (
      arith,
      finish_temporary-Synced fd w t,
      finish_temporary-Synced fd (os.write w fd data').1,
      P.write_target w fd data',
    )

    pub write_temporary-Safe :
        (data' : Bytes) (w : os.World)
        → D.Sole w temp
        → Safe w
        → Safe (write_temporary os temp data' w).1
    unfolding write_temporary
    write_temporary-Safe data' w sole safe = elim (Option-cases (os.open_write w (c_str temp)).0) [
      | inl e ↦ rw (e, write_temporary) (open-Safe w sole safe)
      | inr (fd, e) ↦
          rw (e, write_temporary)
            (fill_temporary-Safe fd data' _ (P.opened_target w temp fd e) (D.open_sole w temp sole)
              (open-Safe w sole safe))
    ]

    pub write_temporary-Synced :
        (data' : Bytes) (w : os.World)
        → (write_temporary os temp data' w).0 ≡ success
        → D.Synced (write_temporary os temp data' w).1 temp
    unfolding write_temporary
    write_temporary-Synced data' w = elim (Option-cases (os.open_write w (c_str temp)).0) [
      | inl e ↦ rw (e, write_temporary) (λ h. cc)
      | inr (fd, e) ↦
          rw (e, write_temporary) (fill_temporary-Synced fd data' _ (P.opened_target w temp fd e))
    ]

    -- The temporary file takes the place of a file that is not one of the two either.
    module _ (path : Str) (p_m : Apart path main_file) (p_b : Apart path backup_file)
        (t_p : Apart temp path) where
      rename-Safe : (w : os.World) → Safe w → Safe (os.rename w (c_str temp) (c_str path)).1
      rename-Safe w =
          IsSafe-quiet os P D main_file backup_file T w _ Anywhere
            (λ r. Apart temp r × Apart path r) (D.rename_keeps w temp path) (tt, tt)
            ((t_m, p_m), (t_b, p_b)) (P.rename_others w temp path main_file t_m p_m)
            (P.rename_others w temp path backup_file t_b p_b)

      pub commit_temporary-Safe : (w : os.World) → Safe w → Safe (commit_temporary os temp path w).1
      unfolding commit_temporary
      commit_temporary-Safe w safe = ground (
        arith,
        rename-Safe w safe,
        remove-Safe (os.rename w (c_str temp) (c_str path)).1,
        sync_directory-Safe (get_directory path) (os.rename w (c_str temp) (c_str path)).1,
      )

      pub commit_temporary-Synced :
          (w : os.World)
          → D.Synced w temp
          → (commit_temporary os temp path w).0 ≡ success
          → D.Synced (commit_temporary os temp path w).1 path
      unfolding commit_temporary
      commit_temporary-Synced w s h = ground (
        arith,
        D.rename_synced w temp path t_p,
        sync_directory-Synced (get_directory path) (os.rename w (c_str temp) (c_str path)).1 path,
        s,
      )

      -- The whole of `atomicWriteFile`, where the directory is there.
      pub write_and_rename-Safe :
          (data' : Bytes) (w : os.World)
          → D.Sole w temp
          → Safe w
          → temp ≡ path ++ temp_file_util_suffix
          → let (e, w') = write_and_rename os path data' w in
            Safe w' × (e ≡ success → D.Synced w' path)
      unfolding write_and_rename
      write_and_rename-Safe data' w sole safe is_temp =
          subst
            (λ t.
              let (e, w') = write_temporary os t data' w in
              let r = if is_success e then commit_temporary os t path w' else (e, w') in
              Safe r.1 × (r.0 ≡ success → D.Synced r.1 path))
            is_temp
            (ground (
              arith,
              is_success_iff (write_temporary os temp data' w).0,
              write_temporary-Safe data' w sole safe,
              write_temporary-Synced data' w,
              commit_temporary-Safe (write_temporary os temp data' w).1,
              commit_temporary-Synced (write_temporary os temp data' w).1,
            ))

-- What is safe is so whether or not the process lives.
module _ (os : Os) (P : IsPosix os) (D : IsDurable P) (main_file backup_file : Str)
    (T : Option Node → Option Node → Type 0) where
  pub IsSafe-mortal :
      (w : os.World) (n : ℕ)
      → IsSafe os P D main_file backup_file T w
      → IsSafe
          (mortal os)
          (mortal-IsPosix os P)
          (mortal-IsDurable os P D)
          main_file
          backup_file
          T
          (w, n)
  unfolding mortal-IsPosix mortal-IsDurable
  IsSafe-mortal w n safe = record {
    now = safe.now;
    main_synced = safe.main_synced;
    backup_synced = safe.backup_synced;
    losses = λ w' l. safe.losses w'.0 l;
  }
