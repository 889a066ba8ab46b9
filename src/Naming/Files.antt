-- ===== src/Naming/Files.antt =====
-- The ids that `SecureStore::listDataIds` reads from the names of files.
use mathlib.Core.List.{Memᴰ}
use secure_storage.Base.{
  ◌-◌, ◌<◌, ◌≡◌, ◌↔◌, refl, sym, ap, ◌∙◌, ◌⊎◌, inl, inr, true, false, none, some, List, [], ◌∷◌,
  ◌++◌, arith, if◌then◌else◌, length, length-append, take, drop, take-append, drop-append,
  take-append-drop, Bool-cases, Option-cases,
}
use secure_storage.Base.Text.{Str, codes, str_eq_iff, empty}
use secure_storage.Error.{success, is_success, is_success_iff}
use secure_storage.Naming.{
  data_file_extension, backup_file_extension, ends_with, id_of_file, ids_of_files, validate_data_id,
}
use secure_storage.Naming.Ids.{validate_data_id-searches}
use secure_storage.Naming.Roles.{main, backup, suffix, suffix-injective}

-- A longer text ends with its last part.
ends_with-append : (p s : Str) → 0 < length p → ends_with (p ++ s) s ≡ true
unfolding ends_with
ends_with-append p s h =
    let cut : length (p ++ s) - length s ≡ length p = omega (arith, length-append {0} p s) in
    rw (cut, drop-append (length p) p s refl)
      (ground (arith, (str_eq_iff s s).1 refl, length-append {0} p s))

-- What ends with a text is a longer one.
ends_with-split : (f s : Str) → ends_with f s ≡ true → f ≡ take (length f - length s) f ++ s
unfolding ends_with
ends_with-split f s h =
    let tail : drop (length f - length s) f ≡ s = (str_eq_iff _ s).0 (ground arith) in
    sym (rw tail at (take-append-drop (length f - length s) f))

-- For a file name that passes the test for ".enc", the test for ".enc.bak" in `listDataIds` fails.
pub ends_with-backup :
    (f : Str)
    → ends_with f data_file_extension ≡ true
    → ends_with f (data_file_extension ++ backup_file_extension) ≡ false
ends_with-backup f h = elim (Bool-cases (ends_with f (codes ".enc.bak"))) [
  | inr e ↦ e
  | inl e ↦
      let both =
        sym (ends_with-split f (codes ".enc") h) ∙ ends_with-split f (codes ".enc.bak") e in
      cc ((suffix-injective _ _ main backup both).1)
]

id_of_file-data :
    (f : Str)
    → ends_with f data_file_extension ≡ true
    → let data_id = take (length f - 4) f in
      id_of_file f ≡ (if is_success (validate_data_id data_id) then some data_id else none)
unfolding id_of_file
id_of_file-data f h = rw (h, ends_with-backup f h)

id_of_file-none : (f : Str) → ends_with f data_file_extension ≡ false → id_of_file f ≡ none
unfolding id_of_file
id_of_file-none f h = rw h

nonempty-length : (s : Str) → empty s ≡ false → 0 < length s
nonempty-length [] h = absurd (cc)
nonempty-length (c ∷ s) h = omega arith

-- The loop of `listDataIds` reads an id from a file name exactly if the name is that of the main
-- file of the id and the id is valid.
pub id_of_file_iff :
    (f data_id : Str)
    → (id_of_file f ≡ some data_id)
      ↔ ((f ≡ data_id ++ suffix main) × (validate_data_id data_id ≡ success))
id_of_file_iff f data_id = (read, written)
  where
    read :
        id_of_file f ≡ some data_id
        → (f ≡ data_id ++ suffix main) × (validate_data_id data_id ≡ success)
    read h = elim (Bool-cases (ends_with f data_file_extension)) [
      | inr e ↦ absurd (cc (h, id_of_file-none f e))
      | inl e ↦ ground (
        arith,
        h,
        id_of_file-data f e,
        ends_with-split f data_file_extension e,
        is_success_iff (validate_data_id (take (length f - 4) f)),
      )
    ]

    written :
        (f ≡ data_id ++ suffix main) × (validate_data_id data_id ≡ success)
        → id_of_file f ≡ some data_id
    written (e, v) =
        let positive = nonempty-length data_id (validate_data_id-searches data_id v).0 in
        let cut : length (data_id ++ suffix main) - 4 ≡ length data_id =
          omega (arith, length-append {0} data_id (suffix main)) in
        rw e (
          id_of_file-data (data_id ++ suffix main) (ends_with-append data_id (suffix main) positive)
          ∙ rw (
            cut,
            take-append (length data_id) data_id (suffix main) refl,
            (is_success_iff (validate_data_id data_id)).1 v,
          ))

Memᴰ-cons_inv {ℓ} : {A : Type ℓ} {a b : A} {l : List A} → Memᴰ a (b ∷ l) → (a ≡ b) ⊎ Memᴰ a l
Memᴰ-cons_inv (Memᴰ.head e) = inl e
Memᴰ-cons_inv (Memᴰ.tail m) = inr m

abbrev Listed : Str → List Str → Type 0
Listed data_id files = Memᴰ (data_id ++ suffix main) files × (validate_data_id data_id ≡ success)

Listed-cons :
    (data_id f : Str) (files : List Str) → Listed data_id files → Listed data_id (f ∷ files)
Listed-cons data_id f files (m, v) = (Memᴰ.tail m, v)

ids_of_files-Listed :
    (data_id : Str) (files : List Str) → Memᴰ data_id (ids_of_files files) → Listed data_id files
unfolding ids_of_files
ids_of_files-Listed data_id [] m = elim m [ ]
ids_of_files-Listed data_id (f ∷ files) m = elim (Option-cases (id_of_file f)) [
  | inl e ↦ Listed-cons _ f files (ids_of_files-Listed data_id files (rw (e, ids_of_files) at m))
  | inr (found, e) ↦
      let m' : Memᴰ data_id (found ∷ ids_of_files files) = rw (e, ids_of_files) at m in
      elim (Memᴰ-cons_inv m') [
        | inl same ↦
            let (name, v) = (id_of_file_iff f data_id).0 (e ∙ ap some (sym same)) in
            (Memᴰ.head (sym name), v)
        | inr rest ↦ Listed-cons _ f files (ids_of_files-Listed data_id files rest)
      ]
]

Listed-ids_of_files :
    (data_id : Str) (files : List Str)
    → validate_data_id data_id ≡ success
    → Memᴰ (data_id ++ suffix main) files
    → Memᴰ data_id (ids_of_files files)
unfolding ids_of_files
Listed-ids_of_files data_id [] v m = elim m [ ]
Listed-ids_of_files data_id (f ∷ files) v (Memᴰ.head e) =
    rw ((id_of_file_iff f data_id).1 (sym e, v), ids_of_files) (Memᴰ.head refl)
Listed-ids_of_files data_id (f ∷ files) v (Memᴰ.tail m) = elim (Option-cases (id_of_file f)) [
  | inl e ↦ rw (e, ids_of_files) (Listed-ids_of_files data_id files v m)
  | inr (found, e) ↦ rw (e, ids_of_files) (Memᴰ.tail (Listed-ids_of_files data_id files v m))
]

-- The loop of `listDataIds` outputs exactly the valid ids whose main file is among the file names.
pub ids_of_files_iff :
    (files : List Str) (data_id : Str)
    → Memᴰ data_id (ids_of_files files)
      ↔ (Memᴰ (data_id ++ suffix main) files × (validate_data_id data_id ≡ success))
ids_of_files_iff files data_id =
    (ids_of_files-Listed data_id files, λ l. Listed-ids_of_files data_id files l.1 l.0)
