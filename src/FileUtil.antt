-- ===== src/FileUtil.antt =====
-- `FileUtil` (src/utils/FileUtil.cpp), as built for POSIX. A method takes the world and gives its
-- code with the new world; an output vector stands beside the code. Log lines are left out.
pub mod Paths
pub mod Directories
pub mod Components
pub mod Temporary
pub mod Atomic
pub mod Reading
pub mod Listing
use secure_storage.Base.{
  ℕ, zero, suc, ◌+◌, ◌-◌, Bool, true, false, not, ◌&&◌, ◌||◌, Option, none, some, List, [], ◌∷◌,
  ◌++◌, ◌==◌, ltb, if◌then◌else◌, length, take, replicate,
}
use mathlib.Core.List.{map}
use secure_storage.Base.Text.{
  c_str, Str, Bytes, codes, empty, str_eq, find_from, find_last, back_is, pop_back, front_is,
  is_slash, is_separator,
}
use secure_storage.Error.{
  Errc, success, invalid_argument, operation_failed, file_open_failed, file_read_failed,
  file_write_failed, file_remove_failed, file_rename_failed, is_success,
}
use secure_storage.Os.{Os, Kind, regular, directory, Mkdir, made, exists, refused}

-- `TEMP_FILE_UTIL_SUFFIX`
abbrev pub temp_file_util_suffix : Str
temp_file_util_suffix = codes ".tmp"

unfoldable pub get_directory : Str → Str
unfolding find_last
get_directory filepath = elim (find_last is_separator filepath) [
  | none ↦ []
  | some k ↦ if k == 0 then take 1 filepath else take k filepath
]

abbrev pub is_directory : Option Kind → Bool
is_directory (some directory) = true
is_directory _ = false

abbrev pub is_regular : Option Kind → Bool
is_regular (some regular) = true
is_regular _ = false

abbrev pub is_present : Option Kind → Bool
is_present (some k) = true
is_present none = false

-- The two loops that prepare `path_copy`: separators to `/`, and no slash at the end but of "/".
unfoldable pub normalize : Str → Str
unfolding back_is pop_back
normalize path =
    let copy = map (λ c. if c == 0x5c then b'/' else c) path in
    if ltb 1 (length copy) && back_is is_slash copy then pop_back copy else copy

-- One round of the loop over the segments: `currentPath` and the next `pos`.
pub record Turn : Type 0 where
  pub current : Str
  pub pos : ℕ

unfoldable pub turn : Str → ℕ → Turn
unfolding find_from front_is
turn path pos = elim (find_from b'/' path pos) [
  | none ↦ record { current = path; pos = length path }
  | some k ↦ record {
    current =
        if empty (take k path) && front_is b'/' path
        then take (if k == 0 then 1 else k) path
        else take k path;
    pos = k + 1;
  }
]

-- `fullEntryPath`
unfoldable pub entry_path : Str → Str → Str
unfolding back_is
entry_path directory_path name =
    (if not (empty directory_path) && not (back_is is_slash directory_path)
      then directory_path ++ b'/' ∷ []
      else directory_path)
    ++ name

module _ (os : Os) where
  open os use {
    World, stat, mkdir, open_write, write, fsync, close, remove, rename, open_directory,
    read_directory, stream_open, tellg, read,
  }

  unfoldable pub path_exists : World → Str → Bool
  path_exists w filepath = if empty filepath then false else is_present (stat w (c_str filepath))

  unfoldable pub delete_file : Str → World → Errc × World
  unfolding path_exists
  delete_file filepath w =
      if empty filepath
      then (invalid_argument, w)
      else if not (path_exists w filepath)
      then (success, w)
      else let (done, w') = remove w (c_str filepath) in
        if done then (success, w') else (file_remove_failed, w')

  -- The part of `readFile` with an open stream of this size.
  unfoldable pub read_stream : Str → ℕ → World → Errc × Bytes
  read_stream filepath size w =
      if size == 0
      then (success, [])
      else let chunk = read w (c_str filepath) size in
        if not chunk.good && not chunk.eof
        then (file_read_failed, [])
        else (success, chunk.bytes ++ replicate (size - length chunk.bytes) 0)

  unfoldable pub read_file : Str → World → Errc × Bytes
  read_file filepath w =
      if empty filepath
      then (invalid_argument, [])
      else if not (stream_open w (c_str filepath))
      then (file_open_failed, [])
      else elim (tellg w (c_str filepath)) [
        | none ↦ (file_read_failed, [])
        | some size ↦ read_stream filepath size w
      ]

  abbrev refuses : Mkdir → Bool
  refuses made = false
  refuses exists = false
  refuses refused = true

  -- The body of the loop after `currentPath` is known: `true` is to go on, `false` the early return
  -- of `OperationFailed`.
  unfoldable pub visit : Str → World → Bool × World
  visit current w =
      if empty current || str_eq current (codes ".") || str_eq current (codes "..")
      then (true, w)
      else if not (is_present (stat w (c_str current)))
      then (let (r, w') = mkdir w (c_str current) in (not (refuses r), w'))
      else (is_directory (stat w (c_str current)), w)

  -- The loop from `pos`; `none` is the fuel run out.
  unfoldable pub make_components : ℕ → Str → ℕ → World → Option (Bool × World)
  make_components zero path pos w = none
  make_components (suc fuel) path pos w =
      let t = turn path pos in
      let (go_on, w') = visit t.current w in
      let rest = make_components fuel path t.pos w' in
      if not (ltb pos (length path))
      then some (true, w)
      else if go_on
      then rest
      else some (false, w')

  -- The final check on the full path.
  abbrev pub check_made : Str → Bool × World → Errc × World
  check_made path (false, w) = (operation_failed, w)
  check_made path (true, w) =
      if is_directory (stat w (c_str path)) then (success, w) else (operation_failed, w)

  -- The path does not exist: the fuel is a round for each character and one more, which is enough
  -- since `pos` grows in each round.
  unfoldable pub make_directories : Str → World → Errc × World
  make_directories path w =
      elim (make_components (suc (length path)) path (if front_is b'/' path then 1 else 0) w) [
        | none ↦ (operation_failed, w)
        | some r ↦ check_made path r
      ]

  unfoldable pub create_directories : Str → World → Errc × World
  create_directories path w =
      if empty path then (invalid_argument, w) else elim (stat w (c_str path)) [
        | some k ↦ if is_directory (some k) then (success, w) else (operation_failed, w)
        | none ↦ make_directories (normalize path) w
      ]

  -- The check of the output directory at the start of `atomicWriteFile`.
  unfoldable pub ensure_directory : Str → World → Errc × World
  ensure_directory output_dir w =
      if empty output_dir
      then (success, w)
      else if not (path_exists w output_dir)
      then create_directories output_dir w
      else if is_present (stat w (c_str output_dir))
          && not (is_directory (stat w (c_str output_dir)))
      then (operation_failed, w)
      else (success, w)

  abbrev wrote_all : Bytes → Option ℕ → Bool
  wrote_all data' none = false
  wrote_all data' (some n) = n == length data'

  -- `close(fd); std::remove(temp); return FileWriteFailed;`
  unfoldable pub abandon : ℕ → Str → World → Errc × World
  abandon fd temp w = (file_write_failed, (remove (close w fd).1 (c_str temp)).1)

  -- `fsync` and `close`, after the data.
  unfoldable pub finish_temporary : ℕ → Str → World → Errc × World
  finish_temporary fd temp w =
      let (synced, w1) = fsync w fd in
      let (closed, w2) = close w1 fd in
      if not synced
      then abandon fd temp w1
      else if not closed
      then (file_write_failed, (remove w2 (c_str temp)).1)
      else (success, w2)

  unfoldable pub fill_temporary : ℕ → Str → Bytes → World → Errc × World
  fill_temporary fd temp data' w =
      if empty data'
      then finish_temporary fd temp w
      else let (count, w') = write w fd data' in
        if wrote_all data' count then finish_temporary fd temp w' else abandon fd temp w'

  unfoldable pub write_temporary : Str → Bytes → World → Errc × World
  write_temporary temp data' w =
      let (fd?, w') = open_write w (c_str temp) in
      elim fd? [ none ↦ (file_open_failed, w') | some fd ↦ fill_temporary fd temp data' w' ]

  -- The `fsync` of the directory, whose failure is only logged.
  unfoldable pub sync_directory : Str → World → World
  sync_directory output_dir w =
      let (fd?, w') =
        open_directory w (c_str (if empty output_dir then codes "." else output_dir)) in
      elim fd? [ none ↦ w' | some fd ↦ (close (fsync w' fd).1 fd).1 ]

  -- The rename of the temporary file, with the temporary file removed if it fails.
  unfoldable pub commit_temporary : Str → Str → World → Errc × World
  commit_temporary temp filepath w =
      let (moved, w') = rename w (c_str temp) (c_str filepath) in
      if moved
      then (success, sync_directory (get_directory filepath) w')
      else (file_rename_failed, (remove w' (c_str temp)).1)

  unfoldable pub write_and_rename : Str → Bytes → World → Errc × World
  write_and_rename filepath data' w =
      let temp = filepath ++ temp_file_util_suffix in
      let (e, w') = write_temporary temp data' w in
      if is_success e then commit_temporary temp filepath w' else (e, w')

  unfoldable pub atomic_write_file : Str → Bytes → World → Errc × World
  atomic_write_file filepath data' w =
      if empty filepath
      then (invalid_argument, w)
      else let (e, w') = ensure_directory (get_directory filepath) w in
        if is_success e then write_and_rename filepath data' w' else (e, w')

  -- The loop over `readdir`.
  unfoldable pub regular_files : Str → List Str → World → List Str
  unfolding entry_path
  regular_files directory_path [] w = []
  regular_files directory_path (name ∷ names) w =
      let rest = regular_files directory_path names w in
      if str_eq name (codes ".") || str_eq name (codes "..")
      then rest
      else if is_regular (stat w (c_str (entry_path directory_path name)))
      then name ∷ rest
      else rest

  unfoldable pub list_directory : Str → World → Errc × List Str
  unfolding regular_files
  list_directory directory_path w =
      if empty directory_path
      then (invalid_argument, [])
      else elim (read_directory w (c_str directory_path)) [
        | none ↦ (file_open_failed, [])
        | some names ↦ (success, regular_files directory_path names w)
      ]
