-- ===== src/Naming.antt =====
-- How `SecureStore` (src/storage/SecureStore.h, src/storage/SecureStore.cpp) names files: the check of
-- a data id, the paths of its files, and the reading of ids from file names.
pub mod Ids
pub mod Roles
pub mod Nul
pub mod Files
pub mod Order
use secure_storage.Base.{
  ℕ, ◌+◌, ◌-◌, Bool, true, false, not, ◌&&◌, ◌||◌, Option, none, some, List, [], ◌∷◌, ◌++◌, ◌==◌,
  ltb, if◌then◌else◌, length, take, drop,
}
use secure_storage.Base.Text.{Str, codes, empty, str_eq, has_char}
use secure_storage.Error.{Errc, success, invalid_argument, is_success}

abbrev pub data_file_extension : Str
data_file_extension = codes ".enc"

abbrev pub backup_file_extension : Str
backup_file_extension = codes ".bak"

abbrev pub temp_file_suffix : Str
temp_file_suffix = codes ".tmp"

-- The paths of a data id below a root path that ends in a separator.
unfoldable pub get_data_file_path : Str → Str → Str
get_data_file_path root data_id = root ++ data_id ++ data_file_extension

unfoldable pub get_backup_file_path : Str → Str → Str
get_backup_file_path root data_id = root ++ data_id ++ data_file_extension ++ backup_file_extension

unfoldable pub get_temp_file_path : Str → Str → Str
get_temp_file_path root data_id = root ++ data_id ++ data_file_extension ++ temp_file_suffix

-- `data_id.find("..") != npos`
unfoldable pub has_dots : Str → Bool
has_dots [] = false
has_dots (c ∷ []) = false
has_dots (c ∷ d ∷ s) = (c == b'.' && d == b'.') || has_dots (d ∷ s)

unfoldable pub validate_data_id : Str → Errc
validate_data_id data_id =
    if empty data_id
    then invalid_argument
    else if has_char b'/' data_id || has_char 0x5c data_id || has_dots data_id
    then invalid_argument
    else success

-- `filename.length() > s.length() && filename.substr(filename.length() - s.length()) == s`
unfoldable pub ends_with : Str → Str → Bool
ends_with filename s =
    ltb (length s) (length filename) && str_eq (drop (length filename - length s) filename) s

-- One round of the loop of `listDataIds`: the id that a file name adds to the output.
unfoldable pub id_of_file : Str → Option Str
id_of_file filename =
    if not (ends_with filename data_file_extension)
    then none
    else if ends_with filename (data_file_extension ++ backup_file_extension)
    then none
    else let data_id = take (length filename - length data_file_extension) filename in
      if is_success (validate_data_id data_id) then some data_id else none

-- The loop itself.
unfoldable pub ids_of_files : List Str → List Str
ids_of_files [] = []
ids_of_files (filename ∷ files) =
    let rest = ids_of_files files in
    elim (id_of_file filename) [ none ↦ rest | some data_id ↦ data_id ∷ rest ]

-- `operator<` of `std::string`, and `std::sort` by it.
unfoldable pub str_lt : Str → Str → Bool
str_lt s [] = false
str_lt [] (d ∷ t) = true
str_lt (c ∷ s) (d ∷ t) = ltb c d || (c == d && str_lt s t)

unfoldable pub insert : Str → List Str → List Str
insert x [] = x ∷ []
insert x (y ∷ l) = let rest = insert x l in if str_lt y x then y ∷ rest else x ∷ y ∷ l

unfoldable pub sort : List Str → List Str
sort [] = []
sort (x ∷ l) = insert x (sort l)
