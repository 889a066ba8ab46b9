-- ===== src/Store/Power/Writing.antt =====
-- `FileUtil::atomicWriteFile` of one file, on a disk that loses its power at some point.
use secure_storage.Base.{
  ℕ, ◌≡◌, ◌≢◌, refl, ◌∙◌, ◌⊎◌, inl, inr, Option, none, some, ◌++◌, arith, Bool-cases,
}
use secure_storage.Base.Text.{c_str, Str, Bytes, has_char}
use secure_storage.Error.{success, is_success, is_success_iff, is_success-success}
use secure_storage.Os.{Os}
use secure_storage.Os.Posix.{IsPosix, IsBase, IsName, Apart, Node, file, folder, device}
use secure_storage.Os.Crash.{mortal}
use secure_storage.Os.Crash.Laws.{mortal-IsPosix}
use secure_storage.Os.Durable.{Anywhere, IsDurable}
use secure_storage.Os.Durable.Mortal.{mortal-IsDurable}
use secure_storage.FileUtil.{
  ensure_directory, atomic_write_file, write_and_rename, write_temporary, commit_temporary,
  get_directory, temp_file_util_suffix,
}
use secure_storage.FileUtil.Paths.{ensure_directory-folder}
use secure_storage.FileUtil.Temporary.{write_temporary-success}
use secure_storage.FileUtil.Atomic.{Apart-longer, empty-entry}
use secure_storage.Store.Power.{IsSafe, IsSafe-mono, IsSafe-call}
use secure_storage.Store.Power.Files.{
  IsSafe-mortal, write_temporary-Safe, write_temporary-Synced, remove-Safe, sync_directory-Safe,
}

-- What was so of the file, or that it has the data.
abbrev pub OrWritten : (Option Node → Type 0) → Bytes → Option Node → Option Node → Type 0
OrWritten W data' n m = W n ⊎ (n ≡ some (file data'))

abbrev pub Alone : (Option Node → Type 0) → Option Node → Option Node → Type 0
Alone W n m = W n

module _ (os : Os) (P : IsPosix os) (D : IsDurable P) (base name : Str) (b : IsBase base)
    (i : IsName name) (W : Option Node → Type 0) (data' : Bytes) where
  abbrev path : Str
  path = base ++ name

  abbrev temp : Str
  temp = path ++ temp_file_util_suffix

  t_p : Apart temp path
  t_p =
      Apart-longer base name temp_file_util_suffix b i (unfold has_char in refl)
        (unfold has_char in refl) (omega arith)

  abbrev Before : os.World → Type 0
  Before w = IsSafe os P D path path (Alone W) w

  abbrev After : os.World → Type 0
  After w = IsSafe os P D path path (OrWritten W data') w

  wider : (w : os.World) → Before w → After w
  wider w = IsSafe-mono os P D path path (Alone W) (OrWritten W data') w (λ n m x. inl x)

  commit-Safe :
      (w : os.World)
      → Before w
      → P.node w temp ≡ some (file data')
      → D.Synced w temp
      → After (commit_temporary os temp path w).1
  unfolding commit_temporary
  commit-Safe w safe n synced = elim (Bool-cases (os.rename w (c_str temp) (c_str path)).0) [
    | inl t ↦
        rw (t, commit_temporary)
          (sync_directory-Safe os P D path path (OrWritten W data') (get_directory path) _ (
            IsSafe-call os P D path path (OrWritten W data') w _ Anywhere
              (λ r. Apart temp r × Apart path r) (wider w safe) (D.rename_keeps w temp path) tt tt
              (inr (P.renamed_to w temp path t_p t ∙ n))
              (λ _. D.rename_synced w temp path t_p t synced)
              (λ _. D.rename_synced w temp path t_p t synced)))
    | inr f ↦
        let same = P.rename_failed w temp path path f in
        rw (f, commit_temporary)
          (remove-Safe os P D path path (OrWritten W data') temp t_p t_p _ (
            IsSafe-call os P D path path (OrWritten W data') w _ Anywhere
              (λ r. Apart temp r × Apart path r) (wider w safe) (D.rename_keeps w temp path) tt tt
              (rw same (inl safe.now))
              (λ k. D.rename_failed w temp path path f (safe.main_synced (λ e. k (same ∙ e))))
              (λ k. D.rename_failed w temp path path f (safe.main_synced (λ e. k (same ∙ e))))))
  ]

  written-After :
      (w : os.World)
      → D.Sole w temp
      → P.node w temp ≢ some device
      → Before w
      → After (write_and_rename os path data' w).1
  unfolding write_and_rename
  written-After w sole no_device safe =
      let first = write_temporary-Safe os P D path path (Alone W) temp t_p t_p data' w sole safe in
      elim (Bool-cases (is_success (write_temporary os temp data' w).0)) [
        | inr f ↦ rw (f, write_and_rename) (wider _ first)
        | inl t ↦
            let done = (is_success_iff (write_temporary os temp data' w).0).0 t in
            rw (t, write_and_rename)
              (commit-Safe _ first (write_temporary-success os P temp data' w no_device done)
                (write_temporary-Synced os P D path path (Alone W) temp t_p t_p data' w done))
      ]

  pub atomic_write_file-After :
      (w : os.World)
      → ensure_directory os (get_directory path) w ≡ (success, w)
      → D.Sole w temp
      → P.node w temp ≢ some device
      → Before w
      → After (atomic_write_file os path data' w).1
  unfolding atomic_write_file
  atomic_write_file-After w there sole no_device safe =
      rw (empty-entry name b, there, is_success-success) (written-After w sole no_device safe)

module _ (os : Os) (P : IsPosix os) (D : IsDurable P) (base name : Str) (b : IsBase base)
    (i : IsName name) (data' : Bytes) (w : os.World) where
  abbrev target : Str
  target = base ++ name

  -- For a file system that has the laws of a journal, an entry, with no NUL byte in its name, of a
  -- directory whose path has no NUL byte and ends in a slash, where the directory of the path is
  -- there, and a temporary path that leads to no device and whose file has had no other path: take
  -- anything that is so of what the path leads to, now and after a loss of power, where a file at
  -- the path is on the disk. After any number of the system's calls of `atomicWriteFile` that
  -- change something, and a loss of power, it is still so, or the path leads to a file with exactly
  -- the data.
  pub atomic_write_file-Loss :
      (W : Option Node → Type 0) (n : ℕ)
      → P.node w (get_directory target) ≡ some folder
      → D.Sole w (target ++ temp_file_util_suffix)
      → P.node w (target ++ temp_file_util_suffix) ≢ some device
      → W (P.node w target)
      → (P.node w target ≢ none → D.Synced w target)
      → ((v : os.World) → D.Loss w v → W (P.node v target))
      → (v : os.World) → D.Loss (atomic_write_file (mortal os) target data' (w, n)).1.0 v
      → W (P.node v target) ⊎ (P.node v target ≡ some (file data'))
  unfolding mortal-IsPosix mortal-IsDurable
  atomic_write_file-Loss W n there sole no_device now synced losses v =
      let after =
        atomic_write_file-After (mortal os) (mortal-IsPosix os P) (mortal-IsDurable os P D) base
          name b i W data' (w, n)
          (ensure_directory-folder (mortal os) (mortal-IsPosix os P) (w, n) (get_directory target)
            there)
          sole no_device
          (IsSafe-mortal os P D target target (Alone W) w n (record {
            now = now;
            main_synced = synced;
            backup_synced = synced;
            losses = losses;
          })) in
      λ l. after.losses (v, 0) l
