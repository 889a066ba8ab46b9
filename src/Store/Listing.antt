-- ===== src/Store/Listing.antt =====
-- `SecureStore::listDataIds` and the `FileUtil::listDirectory` below it.
use mathlib.Core.List.{Memᴰ}
use secure_storage.Base.{◌≡◌, inl, true, inr, List, ◌++◌, arith, Bool-cases}
use secure_storage.Base.Text.{IsPlain, has_char-append, Str}
use secure_storage.Error.{success, is_success, is_success_iff, is_success-success}
use secure_storage.Os.{Os}
use secure_storage.Os.Posix.{IsPosix, IsBase}
use secure_storage.FileUtil.{list_directory}
use secure_storage.FileUtil.Listing.{IsFile, list_directory_iff}
use secure_storage.Crypto.{Mbedtls}
use secure_storage.Naming.{ids_of_files, sort}
use secure_storage.Naming.Files.{ids_of_files_iff}
use secure_storage.Naming.Order.{IsAscending, sort-IsAscending, sort-mem}
use secure_storage.Naming.Roles.{Named, main, entry, suffix, file-IsName}
use secure_storage.Store.{SecureStore, list_data_ids}
use secure_storage.Store.Lifecycle.{IsReady}

IsPlain-start : (s t : Str) → IsPlain (s ++ t) → IsPlain s
IsPlain-start s t h = ground (arith, has_char-append 0 s t)

module _ (os : Os) (P : IsPosix os) (mb : Mbedtls) (s : SecureStore mb) (w : os.World)
    (on : IsReady mb s) (base : IsBase s.root_storage_path) where
  list_data_ids-files :
      (ids : List Str)
      → list_data_ids os mb s w ≡ (success, ids)
      → (files : List Str) × (list_directory os s.root_storage_path w ≡ (success, files))
        × (ids ≡ sort (ids_of_files files))
  unfolding list_data_ids
  list_data_ids-files ids h =
      elim (Bool-cases (is_success (list_directory os s.root_storage_path w).0)) [
        | inr e ↦ ground (arith, on.initialized, is_success-success)
        | inl e ↦ (
          (list_directory os s.root_storage_path w).1,
          (λ i. ((is_success_iff _).0 e i, (list_directory os s.root_storage_path w).1)),
          ground (arith, on.initialized),
        )
      ]

  -- For a store that is ready and a root path with no NUL byte that ends in a slash: if
  -- `listDataIds` reports success, its ids are in ascending order, each of them is a valid id with
  -- no NUL byte whose main file is a regular file, and if `readdir` came to the end of the
  -- directory with no error, every such id is among them.
  pub list_data_ids_iff :
      (ids : List Str)
      → list_data_ids os mb s w ≡ (success, ids)
      → IsAscending ids
        × ((data_id : Str)
            → (Memᴰ data_id ids
                → Named data_id × IsFile (P.node w (entry s.root_storage_path data_id main)))
              × (P.reads_all w s.root_storage_path ≡ true
                  → Named data_id
                  → IsFile (P.node w (entry s.root_storage_path data_id main))
                  → Memᴰ data_id ids))
  list_data_ids_iff ids h =
      let (files, listed, same) = list_data_ids-files ids h in
      rw same (
        sort-IsAscending (ids_of_files files),
        λ data_id. (
          λ m.
              let (there, valid) = (ids_of_files_iff files data_id).0 ((sort-mem _ data_id).0 m) in
              let (is_file, plain) =
                (list_directory_iff os P w s.root_storage_path base files (data_id ++ suffix main)
                    listed).0
                  there in
              ((valid, IsPlain-start data_id (suffix main) plain), is_file),
          λ all named i. (sort-mem _ data_id).1 (
              (ids_of_files_iff files data_id).1 (
                (list_directory_iff os P w s.root_storage_path base files (data_id ++ suffix main)
                      listed).1
                    all (file-IsName data_id main named) i,
                named.0,
              )),
        ),
      )
