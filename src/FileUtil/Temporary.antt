-- ===== src/FileUtil/Temporary.antt =====
-- The temporary file of `FileUtil::atomicWriteFile`: what its writing leaves, on every branch.
use secure_storage.Base.{
  ℕ, ◌≡◌, ◌≢◌, ◌∙◌, none, some, [], ◌∷◌, arith, if◌then◌else◌, length, take_all, Option-cases, inl,
  inr,
}
use secure_storage.Base.Text.{c_str, Str, Bytes, empty}
use secure_storage.Error.{success}
use secure_storage.Os.{Os}
use secure_storage.Os.Posix.{IsPosix, Apart, file, device}
use secure_storage.FileUtil
use secure_storage.FileUtil.{
  wrote_all, abandon, finish_temporary, fill_temporary, write_temporary, sync_directory,
  commit_temporary,
}

module _ (os : Os) (P : IsPosix os) (fd : ℕ) (temp : Str) where
  abandon_others :
      (w : os.World) (q : Str) → Apart temp q → P.node (abandon os fd temp w).1 q ≡ P.node w q
  unfolding abandon
  abandon_others w q a = P.remove_others _ temp q a ∙ P.close_node w fd q

  finish_temporary_others :
      (w : os.World) (q : Str)
      → Apart temp q
      → P.node (finish_temporary os fd temp w).1 q ≡ P.node w q
  unfolding finish_temporary
  finish_temporary_others w q a = ground (
    arith,
    P.fsync_node w fd q,
    P.close_node (os.fsync w fd).1 fd q,
    P.remove_others (os.close (os.fsync w fd).1 fd).1 temp q a,
    abandon_others (os.fsync w fd).1 q a,
  )

  finish_temporary-success :
      (w : os.World) (q : Str)
      → (finish_temporary os fd temp w).0 ≡ success
      → P.node (finish_temporary os fd temp w).1 q ≡ P.node w q
  unfolding finish_temporary abandon
  finish_temporary-success w q h =
      ground (arith, P.fsync_node w fd q, P.close_node (os.fsync w fd).1 fd q)

  fill_temporary_others :
      (data' : Bytes) (w : os.World) (q : Str)
      → P.target w fd ≡ some (c_str temp)
      → Apart temp q
      → P.node (fill_temporary os fd temp data' w).1 q ≡ P.node w q
  unfolding fill_temporary
  fill_temporary_others data' w q t a = ground (
    arith,
    P.write_others w fd temp q data' t a,
    finish_temporary_others w q a,
    finish_temporary_others (os.write w fd data').1 q a,
    abandon_others (os.write w fd data').1 q a,
  )

  fill_temporary-success :
      (data' : Bytes) (w : os.World)
      → P.target w fd ≡ some (c_str temp)
      → P.node w temp ≡ some (file [])
      → (fill_temporary os fd temp data' w).0 ≡ success
      → P.node (fill_temporary os fd temp data' w).1 temp ≡ some (file data')
  unfolding fill_temporary abandon
  fill_temporary-success [] w t e h = finish_temporary-success w temp h ∙ e
  fill_temporary-success (b ∷ bs) w t e h = ground (
    arith,
    finish_temporary-success (os.write w fd (b ∷ bs)).1 temp,
    P.written w fd temp (b ∷ bs) (length (b ∷ bs)) t e,
    take_all (length (b ∷ bs)) (b ∷ bs),
  )

module _ (os : Os) (P : IsPosix os) (temp : Str) (data' : Bytes) (w : os.World) where
  -- Whatever happens, no other entry of the directory changes.
  pub write_temporary_others :
      (q : Str) → Apart temp q → P.node (write_temporary os temp data' w).1 q ≡ P.node w q
  unfolding write_temporary
  write_temporary_others q a = elim (Option-cases (os.open_write w (c_str temp)).0) [
    | inl e ↦ rw (e, write_temporary) (P.open_others w temp q a)
    | inr (fd, e) ↦
        rw (e, write_temporary)
          (fill_temporary_others os P fd temp data' _ q (P.opened_target w temp fd e) a
            ∙ P.open_others w temp q a)
  ]

  -- If it reports success, the temporary file holds the data.
  pub write_temporary-success :
      P.node w temp ≢ some device
      → (write_temporary os temp data' w).0 ≡ success
      → P.node (write_temporary os temp data' w).1 temp ≡ some (file data')
  unfolding write_temporary
  write_temporary-success d = elim (Option-cases (os.open_write w (c_str temp)).0) [
    | inl e ↦ rw (e, write_temporary) (λ h. cc)
    | inr (fd, e) ↦
        rw (e, write_temporary)
          (fill_temporary-success os P fd temp data' _ (P.opened_target w temp fd e)
            (P.opened_empty w temp fd d e))
  ]

module _ (os : Os) (P : IsPosix os) where
  pub sync_directory-node :
      (dir : Str) (w : os.World) (q : Str) → P.node (sync_directory os dir w) q ≡ P.node w q
  unfolding sync_directory
  sync_directory-node dir w q = elim (Option-cases (os.open_directory w (c_str path)).0) [
    | inl e ↦ rw (e, sync_directory) (P.open_directory_node w path q)
    | inr (fd, e) ↦
        rw (e, sync_directory)
          (P.close_node _ fd q ∙ P.fsync_node _ fd q ∙ P.open_directory_node w path q)
  ]
    where
      path : Str
      path = if empty dir then b'.' ∷ [] else dir

module _ (os : Os) (P : IsPosix os) (temp filepath : Str) (w : os.World) where
  pub commit_temporary_others :
      (q : Str)
      → Apart temp q
      → Apart filepath q
      → P.node (commit_temporary os temp filepath w).1 q ≡ P.node w q
  unfolding commit_temporary
  commit_temporary_others q a b = ground (
    arith,
    P.rename_others w temp filepath q a b,
    P.remove_others (os.rename w (c_str temp) (c_str filepath)).1 temp q a,
    sync_directory-node os P dir (os.rename w (c_str temp) (c_str filepath)).1 q,
  )
    where
      dir : Str
      dir = FileUtil.get_directory filepath

  -- Where the two paths are one file, a success leaves it as it was.
  pub commit_temporary-same :
      c_str temp ≡ c_str filepath
      → (commit_temporary os temp filepath w).0 ≡ success
      → P.node (commit_temporary os temp filepath w).1 temp ≡ P.node w temp
  unfolding commit_temporary
  commit_temporary-same e h = ground (
    arith,
    P.rename_same w temp filepath e,
    sync_directory-node os P dir (os.rename w (c_str temp) (c_str filepath)).1 temp,
  )
    where
      dir : Str
      dir = FileUtil.get_directory filepath

  -- A failed rename leaves the target as it was.
  pub commit_temporary-failed :
      Apart temp filepath
      → (commit_temporary os temp filepath w).0 ≢ success
      → P.node (commit_temporary os temp filepath w).1 filepath ≡ P.node w filepath
  unfolding commit_temporary
  commit_temporary-failed a h = ground (
    arith,
    P.rename_failed w temp filepath filepath,
    P.remove_others (os.rename w (c_str temp) (c_str filepath)).1 temp filepath a,
  )

  -- A rename that succeeds puts the temporary file in the target's place.
  pub commit_temporary-success :
      Apart temp filepath
      → (commit_temporary os temp filepath w).0 ≡ success
      → (P.node (commit_temporary os temp filepath w).1 filepath ≡ P.node w temp)
        × (P.node (commit_temporary os temp filepath w).1 temp ≡ none)
  unfolding commit_temporary
  commit_temporary-success a h = (
    ground (
      arith,
      P.renamed_to w temp filepath a,
      sync_directory-node os P dir (os.rename w (c_str temp) (c_str filepath)).1 filepath,
    ),
    ground (
      arith,
      P.renamed_from w temp filepath a,
      sync_directory-node os P dir (os.rename w (c_str temp) (c_str filepath)).1 temp,
    ),
  )
    where
      dir : Str
      dir = FileUtil.get_directory filepath
