-- ===== src/Tests/Runs.antt =====
-- A run of the store with a death of the process in it.
use mathlib.Core.List.Memᴰ
use mathlib.Core.List.{Memᴰ}
use secure_storage.Base.{◌≡◌, ◌≢◌, refl, sym, subst, true, none, some, [], ◌∷◌}
use secure_storage.Base.Text.{c_str, IsPlain, Str, codes, has_char, str_eq, find_last}
use secure_storage.Error.{success, is_success}
use secure_storage.Os.Posix.{IsPosix, contents?, file}
use secure_storage.Os.Crash.{mortal}
use secure_storage.Os.Memory.{
  World, memory_os, place, lookup, del, Place, root, inside, elsewhere, seen,
}
use secure_storage.Os.Memory.Laws.{memory-IsPosix, memory-IsFaultless}
use secure_storage.FileUtil.{
  atomic_write_file, ensure_directory, path_exists, write_and_rename, write_temporary,
  fill_temporary, finish_temporary, commit_temporary, sync_directory, get_directory, delete_file,
  read_stream, read_file, create_directories,
}
use secure_storage.Crypto.Encryptor.{encrypt, generate_iv, seal_with, decrypt, open_parts, ready?}
use secure_storage.Crypto.Toy.{toy, toy-IsLawful}
use secure_storage.Naming.{
  validate_data_id, has_dots, get_data_file_path, get_backup_file_path, get_temp_file_path,
}
use secure_storage.Naming.Roles.{Role, main, backup, temp, temp_temp, entry}
use secure_storage.Store.{
  back_up, restore_backup, replace_main, store_encrypted, restore_main, retrieve_main,
  retrieve_backup, store_data, retrieve_data,
}
use secure_storage.Store.{delete_files, delete_data}
use secure_storage.Error.{file_remove_failed}
use secure_storage.Store.Lifecycle.{IsReady}
use secure_storage.Store.{secure_store, initialize}
use secure_storage.Store.Refinement.{
  deleted, Versions, Event, stored, found, store_cut, Plays, OnlyFiles,
}
use secure_storage.Store.Refinement.Runs.{
  Restarted, Runs, r_done, r_stored, r_found, r_store_cut, visited,
}
use secure_storage.Store.Refinement.Frame.{Rep}
use secure_storage.Store.Refinement.Restarting.{IsOpened}
use secure_storage.Store.Refinement.Calls.{Holding}
use secure_storage.Store.Refinement.Simulation.{store-refines}
use secure_storage.Store.Refinement.Origin.{IsStored, found-IsStored}
use secure_storage.Crypto.Toy.{zeros, stretch}
use secure_storage.Crypto.Encryptor.{encryptor}
use secure_storage.Crypto.KeyProvider.{key_provider, get_encryption_key}
use secure_storage.Base.{List, ◌++◌, replicate}
use secure_storage.Base.Text.{back_is, find_last}
use secure_storage.Error.{file_rename_failed}
use secure_storage.Tests.Stores.{used_store, with_data, stores}
use secure_storage.Tests.Values.{
  valid_id, top, top-IsBase, an_id, some_data, sealed_data, an_encryptor, a_store, a_store-IsReady,
  world_of,
}

abbrev here : World
here = world_of []

-- An empty directory holds the empty map.
no_files : (at : Place) → contents? (seen [] at) ≡ none
unfolding lookup
no_files root = refl
no_files (inside name) = refl
no_files elsewhere = refl

an_encryptor_works : ready? toy an_encryptor ≢ none
unfolding ready?
an_encryptor_works e = cc

works : (on : IsReady toy a_store) → ready? toy on.e ≢ none
works on =
    let same : an_encryptor ≡ on.e = cc (on.encryptor) in
    subst (λ e. ready? toy e ≢ none) same an_encryptor_works

pub empty-Rep : Rep memory_os memory-IsPosix toy toy-IsLawful (λ q. []) a_store here
unfolding memory-IsPosix
empty-Rep = record {
  ready = a_store-IsReady;
  base = top-IsBase;
  works = works a_store-IsReady;
  no_others = λ q bad. refl;
  cells = λ q good. (
    (no_files (place (c_str (entry top q main))), no_files (place (c_str (entry top q backup)))),
    λ bytes e. absurd (cc (no_files (place (c_str (entry top q backup))), e)),
  );
}

pub a_store-IsOpened : IsOpened memory_os toy toy-IsLawful top (codes "S1") a_store
unfolding back_is get_encryption_key key_provider stretch
a_store-IsOpened = (refl, refl)

-- The process dies when it has moved the main file to the backup.
abbrev cut_world : World
cut_world = world_of (
    (codes "a.enc.bak", file sealed_data)
    ∷ (codes "a.enc.tmp", file (replicate 12 8 ++ ([] ++ zeros)))
    ∷ [])

cut :
    store_data (mortal memory_os) toy an_id [] used_store (with_data, 7)
    ≡ some (
      file_rename_failed,
      record used_store {
        encryptor = some (record { impl = some (record { initialized = true; rng = 9 }) });
      },
      (cut_world, 0),
    )
unfolding store_data store_encrypted back_up replace_main restore_backup atomic_write_file
    ensure_directory path_exists write_and_rename write_temporary fill_temporary finish_temporary
    commit_temporary sync_directory get_directory delete_file encrypt generate_iv ready? seal_with
    validate_data_id has_dots has_char is_success place lookup del str_eq find_last
    get_data_file_path get_backup_file_path get_temp_file_path
cut = refl

again : secure_store memory_os toy top (codes "S1") 7 cut_world ≡ (a_store, cut_world)
unfolding secure_store initialize create_directories place is_success get_encryption_key
    key_provider stretch encryptor back_is
again = refl

restarts : Restarted memory_os toy top (codes "S1") cut_world a_store cut_world
restarts = record { entropy = 7; opened = again; initialized = refl; seeded = refl }

-- A new process finds the data in the backup and restores the main file.
abbrev restored_world : World
restored_world =
    world_of ((codes "a.enc", file sealed_data) ∷ (codes "a.enc.bak", file sealed_data) ∷ [])

finds :
    retrieve_data memory_os toy an_id a_store cut_world ≡ some (success, some_data, restored_world)
unfolding retrieve_data retrieve_main retrieve_backup restore_main read_file read_stream decrypt
    open_parts ready? atomic_write_file ensure_directory path_exists write_and_rename
    write_temporary fill_temporary finish_temporary commit_temporary sync_directory get_directory
    delete_file validate_data_id has_dots has_char is_success place lookup del str_eq find_last
    get_data_file_path get_backup_file_path
finds = refl

abbrev calls : List Event
calls = stored an_id some_data ∷ store_cut an_id [] ∷ []

abbrev a_run :
    Runs memory_os toy top
      (codes "S1")
      a_store
      here
      (calls ++ found an_id some_data ∷ [])
      a_store
      restored_world
a_run = r_stored stores (r_store_cut 7 0 cut restarts (r_found finds r_done))

nothing_there_only :
    (r : Role)
    → contents? ((IsPosix.node memory-IsPosix) here (entry top an_id r)) ≡ none
    → (IsPosix.node memory-IsPosix) here (entry top an_id r) ≡ none
unfolding memory-IsPosix place lookup has_char
nothing_there_only main e = refl
nothing_there_only backup e = refl
nothing_there_only temp e = refl
nothing_there_only temp_temp e = refl

pub nothing_there : OnlyFiles memory_os memory-IsPosix top an_id here
nothing_there = (valid_id.1, nothing_there_only)

one_file_only :
    (r : Role)
    → contents? ((IsPosix.node memory-IsPosix) with_data (entry top an_id r)) ≡ none
    → (IsPosix.node memory-IsPosix) with_data (entry top an_id r) ≡ none
unfolding memory-IsPosix place lookup has_char str_eq
one_file_only main e = absurd (cc)
one_file_only backup e = refl
one_file_only temp e = refl
one_file_only temp_temp e = refl

pub one_file : OnlyFiles memory_os memory-IsPosix top an_id with_data
one_file = (valid_id.1, one_file_only)

two_files_only :
    (r : Role)
    → contents? ((IsPosix.node memory-IsPosix) cut_world (entry top an_id r)) ≡ none
    → (IsPosix.node memory-IsPosix) cut_world (entry top an_id r) ≡ none
unfolding memory-IsPosix place lookup has_char str_eq
two_files_only main e = refl
two_files_only backup e = absurd (cc)
two_files_only temp e = absurd (cc)
two_files_only temp_temp e = refl

two_files : OnlyFiles memory_os memory-IsPosix top an_id cut_world
two_files = (valid_id.1, two_files_only)

abbrev pub OnlyThere : Str × Str × World → Type 0
OnlyThere x = OnlyFiles memory_os memory-IsPosix x.0 x.1 x.2

a_run-files :
    (base i : Str) (v : World)
    → Memᴰ (base, i, v) (visited memory_os toy top (codes "S1") a_run)
    → OnlyThere (base, i, v)
a_run-files base i v (Memᴰ.head e) = subst OnlyThere (sym e) nothing_there
a_run-files base i v (Memᴰ.tail (Memᴰ.head e)) = subst OnlyThere (sym e) one_file
a_run-files base i v (Memᴰ.tail (Memᴰ.tail (Memᴰ.head e))) = subst OnlyThere (sym e) two_files
a_run-files base i v (Memᴰ.tail (Memᴰ.tail (Memᴰ.tail at))) = absurd (Memᴰ.not-nil at)

no_deletions : (i : Str) → Memᴰ (deleted i) (calls ++ found an_id some_data ∷ []) → IsPlain i
no_deletions i (Memᴰ.head e) = absurd (cc)
no_deletions i (Memᴰ.tail (Memᴰ.head e)) = absurd (cc)
no_deletions i (Memᴰ.tail (Memᴰ.tail (Memᴰ.head e))) = absurd (cc)
no_deletions i (Memᴰ.tail (Memᴰ.tail (Memᴰ.tail at))) = absurd (Memᴰ.not-nil at)

store-refines_example :
    (m' : Versions) × Plays (λ q. []) (calls ++ found an_id some_data ∷ []) m'
    × Holding memory_os memory-IsPosix toy toy-IsLawful top (codes "S1") m' a_store restored_world
store-refines_example =
    store-refines memory_os memory-IsPosix memory-IsFaultless toy toy-IsLawful top (codes "S1")
      (λ q. []) a_run a_run-files no_deletions (empty-Rep, a_store-IsOpened)

found-IsStored_example : IsStored an_id some_data calls
found-IsStored_example =
    found-IsStored memory_os memory-IsPosix memory-IsFaultless toy toy-IsLawful top (codes "S1")
      (λ q. []) calls [] an_id some_data a_run a_run-files no_deletions
      (empty-Rep, a_store-IsOpened) refl

-- The main file has the newest version, and the backup the one before.
abbrev two_versions : World
two_versions = world_of (
    (codes "a.enc", file (replicate 12 8 ++ ([] ++ zeros)))
    ∷ (codes "a.enc.bak", file sealed_data)
    ∷ [])

abbrev older_left : World
older_left = world_of ((codes "a.enc.bak", file sealed_data) ∷ [])

-- The process dies after the first removal of `deleteData`.
deletion_cut :
    delete_data (mortal memory_os) toy an_id a_store (two_versions, 1)
    ≡ (file_remove_failed, (older_left, 0))
unfolding delete_data delete_files delete_file path_exists validate_data_id has_dots has_char
    is_success place lookup del str_eq get_data_file_path get_backup_file_path
deletion_cut = refl

-- The version before is found and becomes the main file.
older_found :
    retrieve_data memory_os toy an_id a_store older_left ≡ some (success, some_data, restored_world)
unfolding retrieve_data retrieve_main retrieve_backup restore_main read_file read_stream decrypt
    open_parts ready? atomic_write_file ensure_directory path_exists write_and_rename
    write_temporary fill_temporary finish_temporary commit_temporary sync_directory get_directory
    delete_file validate_data_id has_dots has_char is_success place lookup del str_eq find_last
    get_data_file_path get_backup_file_path
older_found = refl
