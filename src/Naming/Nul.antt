-- ===== src/Naming/Nul.antt =====
-- What `c_str()` leaves of the paths of a data id that has a NUL byte.
use secure_storage.Base.{
  ◌≡◌, ◌≢◌, refl, ap, ◌==◌, length, length-append, false, [], ◌∷◌, ◌++◌, append_assoc, arith,
}
use secure_storage.Base.Text.{
  Str, IsPlain, c_str, append-IsPlain, empty, back_is, has_char, has_char-append,
}
use secure_storage.Error.{success}
use secure_storage.Naming.{
  data_file_extension, get_data_file_path, get_backup_file_path, get_temp_file_path, has_dots,
  validate_data_id,
}
use secure_storage.Naming.Ids.{validate_data_id-searches, searches-validate_data_id}
use secure_storage.Naming.Roles.{
  Named, Role, main, backup, temp, suffix, entry, get_data_file_path-entry,
  get_backup_file_path-entry, get_temp_file_path-entry,
}

-- The id with the extension of a main file and a NUL byte.
abbrev pub twin_of : Str → Str
twin_of data_id = data_id ++ (data_file_extension ++ 0 ∷ [])

c_str-cut : (p rest : Str) → IsPlain p → c_str (p ++ (0 ∷ rest)) ≡ p
unfolding has_char
c_str-cut [] rest h = refl
c_str-cut (c ∷ p) rest h = ground (arith, c_str-cut p rest)

twin-entry :
    (root data_id : Str) (r : Role)
    → IsPlain root
    → IsPlain data_id
    → c_str (entry root (twin_of data_id) r) ≡ entry root data_id main
unfolding has_char
twin-entry root data_id r z i =
    let whole : IsPlain (root ++ (data_id ++ data_file_extension)) =
      append-IsPlain root (data_id ++ data_file_extension) z
        (append-IsPlain data_id data_file_extension i refl) in
    let cut : entry root (twin_of data_id) r ≡ entry root data_id main ++ (0 ∷ suffix r) =
      simp append_assoc in
    rw cut (c_str-cut (entry root data_id main) (suffix r) whole)

has_dots-twin :
    (s : Str)
    → has_dots s ≡ false
    → back_is (λ c. c == b'.') s ≡ false
    → has_dots (twin_of s) ≡ false
unfolding has_dots back_is
has_dots-twin [] h n = refl
has_dots-twin (c ∷ []) h n = ground arith
has_dots-twin (c ∷ d ∷ s) h n = ground (arith, has_dots-twin (d ∷ s))

twin-valid :
    (s : Str)
    → validate_data_id s ≡ success
    → back_is (λ c. c == b'.') s ≡ false
    → validate_data_id (twin_of s) ≡ success
unfolding has_char
twin-valid s v n =
    let (e, a, b, d) = validate_data_id-searches s v in
    searches-validate_data_id (twin_of s) (long s) (rw (has_char-append, a) refl)
      (rw (has_char-append, b) refl) (has_dots-twin s d n)
  where
    long : (s : Str) → empty (twin_of s) ≡ false
    long [] = refl
    long (c ∷ s) = refl

twin-differs : (s : Str) → twin_of s ≢ s
twin-differs s e = omega (arith, ap length e, length-append {0} s (data_file_extension ++ 0 ∷ []))

-- For a root path with no NUL byte, and a valid id with no NUL byte that does not end in a dot: the
-- id followed by `.enc` and a NUL byte is accepted by `validateDataId` and is another id, and the
-- paths of its main file, its backup and its temporary file, each up to the first NUL byte, as
-- `c_str()` hands them to the system, are the path of the main file of the first id.
pub twin_of-paths :
    (root data_id : Str)
    → IsPlain root
    → Named data_id
    → back_is (λ c. c == b'.') data_id ≡ false
    → (validate_data_id (twin_of data_id) ≡ success)
      × (twin_of data_id ≢ data_id)
      × (c_str (get_data_file_path root (twin_of data_id)) ≡ get_data_file_path root data_id)
      × (c_str (get_backup_file_path root (twin_of data_id)) ≡ get_data_file_path root data_id)
      × (c_str (get_temp_file_path root (twin_of data_id)) ≡ get_data_file_path root data_id)
twin_of-paths root data_id z (valid, i) n = (
  twin-valid data_id valid n,
  twin-differs data_id,
  rw (get_data_file_path-entry, get_data_file_path-entry) (twin-entry root data_id main z i),
  rw (get_backup_file_path-entry, get_data_file_path-entry) (twin-entry root data_id backup z i),
  rw (get_temp_file_path-entry, get_data_file_path-entry) (twin-entry root data_id temp z i),
)
