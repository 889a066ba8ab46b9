-- ===== src/Store/Power/Retrieving.antt =====
-- `SecureStore::retrieveData` on a disk that loses its power at some point.
use secure_storage.Base.{
  ℕ, ◌≡◌, ◌≢◌, sym, subst, ◌⊎◌, inl, inr, Bool, ◌&&◌, Option, none, some, [], arith, Bool-cases,
}
use secure_storage.Base.Text.{Str, Bytes}
use secure_storage.Error.{success, is_success, is_success_iff}
use secure_storage.Os.{Os}
use secure_storage.Os.Posix.{IsPosix, IsBase, Node, file, device}
use secure_storage.Os.Durable.{IsDurable}
use secure_storage.Os.Durable.Mortal.{mortal-IsDurable}
use secure_storage.Os.Crash.{mortal}
use secure_storage.Os.Crash.Laws.{mortal-IsPosix}
use secure_storage.Crypto.{Mbedtls, IsLawful}
use secure_storage.Crypto.Encryptor.{Encryptor, decrypt}
use secure_storage.Crypto.Encryptor.Laws.{IsSealed}
use secure_storage.Crypto.Encryptor.Decrypting.{decrypt-IsSealed}
use secure_storage.FileUtil.{read_file}
use secure_storage.FileUtil.Reading.{read_file-missing}
use secure_storage.Naming.Roles.{Named, Role, main, backup, temp, entry}
use secure_storage.Store.{retrieve_main, retrieve_backup, restore_main}
use secure_storage.Store.Power.{IsSafe}
use secure_storage.Store.Power.Files.{IsSafe-mortal}
use secure_storage.Store.Power.Writing.{Alone, OrWritten}
use secure_storage.Store.Power.Restoring.{OrGone, Fit, restore_main-Safe, restore_main-quiet}

module _ (os : Os) (mb : Mbedtls) (L : IsLawful mb) (main_file backup_file : Str) (key : Bytes)
    (e : Encryptor mb) (w : os.World) where
  abbrev after : os.World
  after = (retrieve_main os mb main_file backup_file key e w).2

  -- A backup that reads as sealed data.
  abbrev pub BackupReads : Bytes → Type 0
  BackupReads c =
      (read_file os backup_file w ≡ (success, c)) × ((plain : Bytes) × IsSealed mb L plain key [] c)

  -- Retrieving changes something only when the backup reads as sealed data.
  abbrev Ways : os.World → Type 0
  Ways w' =
      (w' ≡ w)
      ⊎ ((c : Bytes) × (was_read : Bool) × BackupReads c
          × (w' ≡ restore_main os main_file c was_read w))

  retrieve_backup-Ways :
      (was_read : Bool) → Ways (retrieve_backup os mb main_file backup_file was_read key e w).2
  unfolding retrieve_backup
  retrieve_backup-Ways was_read =
      let read = read_file os backup_file w in
      elim (Bool-cases (is_success read.0 && is_success (decrypt mb read.1 key [] [] e).0)) [
        | inr f ↦ inl (ground arith)
        | inl t ↦
            let r : read.0 ≡ success = ground (arith, is_success_iff read.0) in
            let d : (decrypt mb read.1 key [] [] e).0 ≡ success =
              ground (arith, is_success_iff (decrypt mb read.1 key [] [] e).0) in
            inr (
              read.1,
              was_read,
              ((λ i. (r i, read.1)), (_, decrypt-IsSealed mb L read.1 key [] [] e d)),
              ground arith,
            )
      ]

  retrieve_main-Ways : Ways after
  unfolding retrieve_main
  retrieve_main-Ways =
      let main_read = read_file os main_file w in
      elim (Bool-cases
        (is_success main_read.0 && is_success (decrypt mb main_read.1 key [] [] e).0)) [
          | inl u ↦ inl (ground arith)
          | inr u ↦
              let rest =
                retrieve_backup os mb main_file backup_file (is_success main_read.0) key e w in
              let same : after ≡ rest.2 = ground arith in
              subst Ways (sym same) (retrieve_backup-Ways (is_success main_read.0))
        ]

module _ (os : Os) (P : IsPosix os) (D : IsDurable P) (w : os.World) where
  -- Something is so of what a path leads to, now and after a loss of power, and a file there is on
  -- the disk.
  abbrev pub Lasts : (Option Node → Type 0) → Str → Type 0
  Lasts W p = IsSafe os P D p p (Alone W) w

module _ (os : Os) (P : IsPosix os) (D : IsDurable P) (mb : Mbedtls) (L : IsLawful mb)
    (root data_id : Str) (base : IsBase root) (valid : Named data_id) (key : Bytes)
    (e : Encryptor mb) (w : os.World) where
  abbrev path : Role → Str
  path r = entry root data_id r

  -- The theorem for what a process that dies leaves.
  restored-Loss :
      (W B : Option Node → Type 0) (n : ℕ)
      → D.Sole w (path temp)
      → P.node w (path temp) ≢ some device
      → Lasts os P D w W (path main)
      → Lasts os P D w B (path backup)
      → (c : Bytes) (was_read : Bool)
      → BackupReads (mortal os) mb L (path main) (path backup) key e (w, n) c
      → (v : os.World) → D.Loss (restore_main (mortal os) (path main) c was_read (w, n)).0 v
      → B (P.node v (path backup))
        × OrWritten (OrGone W) c (P.node v (path main)) (P.node v (path main))
  unfolding mortal-IsPosix mortal-IsDurable
  restored-Loss W B n sole no_device m b c was_read reads v l =
      let lives = mortal-IsPosix os P in
      let lasts = mortal-IsDurable os P D in
      let fit : Fit (mortal os) lives lasts root data_id base valid W B c (w, n) = record {
        there =
            λ k. read_file-missing (mortal os) lives (path backup) (w, n) k (λ i. (reads.0 i).0);
        sole = sole;
        no_device = no_device;
      } in
      let backup_safe =
        restore_main-quiet (mortal os) lives lasts root data_id base valid W B c was_read (w, n) fit
          (IsSafe-mortal os P D (path backup) (path backup) (Alone B) w n b) in
      let main_safe =
        restore_main-Safe (mortal os) lives lasts root data_id base valid W B c was_read (w, n) fit
          (IsSafe-mortal os P D (path main) (path main) (Alone W) w n m) in
      (backup_safe.losses (v, 0) l, main_safe.losses (v, 0) l)

  -- For a file system that has the laws of a journal, a root path with no NUL byte that ends in a
  -- slash, a valid id with no NUL byte, and a path of the temporary file that leads to no device
  -- and whose file has had no other path: take anything that is so of the main file of the id, and
  -- of its backup, each now and after a loss of power, with a file there on the disk. After any
  -- number of the system's calls of the two stages of `retrieveData` that change something, and a
  -- loss of power, the backup is still so; and the main file is still so, or the backup read as
  -- data sealed under the key, and the main file is gone or has the contents that were read.
  pub retrieve_main-Loss :
      (W B : Option Node → Type 0) (n : ℕ)
      → D.Sole w (path temp)
      → P.node w (path temp) ≢ some device
      → Lasts os P D w W (path main)
      → Lasts os P D w B (path backup)
      → (v : os.World)
      → D.Loss (retrieve_main (mortal os) mb (path main) (path backup) key e (w, n)).2.0 v
      → B (P.node v (path backup))
        × (W (P.node v (path main))
            ⊎ ((c : Bytes) × BackupReads (mortal os) mb L (path main) (path backup) key e (w, n) c
                × ((P.node v (path main) ≡ none) ⊎ (P.node v (path main) ≡ some (file c)))))
  retrieve_main-Loss W B n sole no_device m b v l =
      elim (retrieve_main-Ways (mortal os) mb L (path main) (path backup) key e (w, n)) [
        | inl same ↦
            let l' = subst (λ x. D.Loss x.0 v) same l in (b.losses v l', inl (m.losses v l'))
        | inr (c, was_read, reads, same) ↦
            let (bb, mm) =
              restored-Loss W B n sole no_device m b c was_read reads v
                (subst (λ x. D.Loss x.0 v) same l) in
            (
              bb,
              elim mm [
                | inl (inl kept) ↦ inl kept
                | inl (inr gone) ↦ inr (c, reads, inl gone)
                | inr copy ↦ inr (c, reads, inr copy)
              ],
            )
      ]
