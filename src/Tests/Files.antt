-- ===== src/Tests/Files.antt =====
-- The theorems on `FileUtil` at concrete file systems.
use mathlib.Core.List.{Memᴰ}
use secure_storage.Base.{true, ◌≡◌, ◌≢◌, refl, ◌⊎◌, none, some, [], ◌∷◌, ◌++◌}
use secure_storage.Base.Text.{c_str, IsPlain, Str, codes, has_char, str_eq, back_is}
use secure_storage.Error.{success}
use secure_storage.Os.Posix.{IsPosix, IsName, file, device, contents?}
use secure_storage.Os.Memory.{World, memory_os, place, lookup}
use secure_storage.Os.Memory.Laws.{memory-IsPosix}
use secure_storage.FileUtil.{
  read_stream, read_file, atomic_write_file, entry_path, regular_files, list_directory,
  create_directories, normalize, temp_file_util_suffix,
}
use secure_storage.FileUtil.Atomic.{atomic_write_file_all_or_nothing, atomic_write_file_others}
use secure_storage.FileUtil.Listing.{IsFile, list_directory_iff}
use secure_storage.FileUtil
use secure_storage.FileUtil.Components.{prefixes, try_all, create_directories-tries}
use secure_storage.Naming.Roles.{main, backup, temp, entry, file-IsName, suffix}
use secure_storage.Store.Saving.{apart}
use secure_storage.Tests.Values.{top, top-IsBase, an_id, valid_id, some_data, world_of}

abbrev P : IsPosix memory_os
P = memory-IsPosix

abbrev before : World
before = world_of ((codes "a.enc", file some_data) ∷ [])

abbrev path : Str
path = top ++ (an_id ++ suffix main)

valid_file : IsName (an_id ++ suffix main)
valid_file = file-IsName an_id main valid_id

no_device : P.node before (path ++ temp_file_util_suffix) ≢ some device
unfolding memory-IsPosix place lookup str_eq has_char
no_device e = cc

atomic_write_file_all_or_nothing_example :
    let after = atomic_write_file memory_os path (9 ∷ []) before in
    ((after.0 ≡ success)
      × (P.node after.1 path ≡ some (file (9 ∷ [])))
      × (P.node after.1 (path ++ temp_file_util_suffix) ≡ none))
    ⊎ ((after.0 ≢ success) × (contents? (P.node after.1 path) ≡ contents? (P.node before path)))
atomic_write_file_all_or_nothing_example =
    atomic_write_file_all_or_nothing memory_os P top (an_id ++ suffix main) top-IsBase valid_file
      (9 ∷ []) before no_device

atomic_write_file_others_example :
    contents? (P.node (atomic_write_file memory_os path (9 ∷ []) before).1 (entry top an_id backup))
    ≡ contents? (P.node before (entry top an_id backup))
atomic_write_file_others_example =
    atomic_write_file_others memory_os P top (an_id ++ suffix main) top-IsBase valid_file (9 ∷ [])
      before (entry top an_id backup) (apart top an_id top-IsBase valid_id temp backup (λ e. cc))
      (apart top an_id top-IsBase valid_id main backup (λ e. cc))

there : P.node before path ≡ some (file some_data)
unfolding memory-IsPosix place lookup str_eq has_char
there = refl

read_success : (read_file memory_os path before).0 ≡ success
unfolding read_file read_stream place lookup str_eq has_char
read_success = refl

lists : list_directory memory_os top before ≡ (success, codes "a.enc" ∷ [])
unfolding list_directory regular_files entry_path place lookup str_eq has_char back_is
lists = refl

list_directory_iff_example :
    (Memᴰ (an_id ++ suffix main) (codes "a.enc" ∷ [])
      → IsFile (P.node before path) × IsPlain (an_id ++ suffix main))
    × (P.reads_all before top ≡ true
        → IsName (an_id ++ suffix main)
        → IsFile (P.node before path)
        → Memᴰ (an_id ++ suffix main) (codes "a.enc" ∷ []))
list_directory_iff_example =
    list_directory_iff memory_os P before top top-IsBase (codes "a.enc" ∷ []) (an_id ++ suffix main)
      lists

nothing_at_x : memory_os.stat before (c_str (codes "/x/y")) ≡ none
unfolding place lookup str_eq has_char
nothing_at_x = refl

create_directories-tries_example :
    create_directories memory_os (codes "/x/y") before
    ≡ FileUtil.check_made memory_os
        (normalize (codes "/x/y"))
        (try_all memory_os (prefixes (normalize (codes "/x/y"))) before)
create_directories-tries_example =
    create_directories-tries memory_os (codes "/x/y") before (λ e. cc) nothing_at_x

-- It tries the directory, and then the one in it.
tried : prefixes (normalize (codes "/x/y")) ≡ codes "/x" ∷ codes "/x/y" ∷ []
unfolding normalize back_is
tried = refl
