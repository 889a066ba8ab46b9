-- ===== src/Naming/Roles.antt =====
-- The files of a data id never collide, neither with one another nor with those of another id.
use mathlib.Core.List.{append_cancel_right}
use secure_storage.Base.{
  ℕ, ◌<◌, ◌≡◌, ◌≢◌, refl, sym, ap, ◌∙◌, ◌⊎◌, inl, inr, Bool, false, [], ◌∷◌, ◌++◌, append_assoc,
  arith, length, length-append, ◌==◌,
}
use secure_storage.Base.Text.{
  IsPlain, append-IsPlain, Str, codes, has_char, has_char-append, back_is, back_is-append,
}
use secure_storage.Error.{success}
use secure_storage.Os.Posix.{IsBase, slashed, IsName, Apart}
use secure_storage.FileUtil.{temp_file_util_suffix}
use secure_storage.FileUtil.Paths.{NoSeparator}
use secure_storage.Naming.{
  data_file_extension, backup_file_extension, temp_file_suffix, get_data_file_path,
  get_backup_file_path, get_temp_file_path, validate_data_id,
}
use secure_storage.Naming.Ids.{validate_data_id-searches}

-- The main file, its backup, the file that `storeData` prepares, and the temporary file that
-- `atomicWriteFile` uses for that one. The temporary file for the main file itself is `temp` too.
pub data Role : Type 0 where
  main backup temp temp_temp : Role

abbrev pub suffix : Role → Str
suffix main = data_file_extension
suffix backup = data_file_extension ++ backup_file_extension
suffix temp = data_file_extension ++ temp_file_suffix
suffix temp_temp = data_file_extension ++ temp_file_suffix ++ temp_file_util_suffix

-- The path of a file of an id in the root directory.
abbrev pub entry : Str → Str → Role → Str
entry root data_id r = root ++ (data_id ++ suffix r)

pub get_data_file_path-entry :
    (root data_id : Str) → get_data_file_path root data_id ≡ entry root data_id main
unfolding get_data_file_path
get_data_file_path-entry root data_id = append_assoc root data_id _

pub get_backup_file_path-entry :
    (root data_id : Str) → get_backup_file_path root data_id ≡ entry root data_id backup
unfolding get_backup_file_path
get_backup_file_path-entry root data_id = simp append_assoc

pub get_temp_file_path-entry :
    (root data_id : Str) → get_temp_file_path root data_id ≡ entry root data_id temp
unfolding get_temp_file_path
get_temp_file_path-entry root data_id = simp append_assoc

pub temp_of :
    (root data_id : Str)
    → entry root data_id main ++ temp_file_util_suffix ≡ entry root data_id temp
temp_of root data_id = simp append_assoc

pub temp_of_temp :
    (root data_id : Str)
    → entry root data_id temp ++ temp_file_util_suffix ≡ entry root data_id temp_temp
temp_of_temp root data_id = simp append_assoc

-- Two texts that end in different characters differ.
ends_differ :
    (p : ℕ → Bool) (a b s t : Str) (c d : ℕ)
    → back_is p (c ∷ s) ≢ back_is p (d ∷ t)
    → a ++ (c ∷ s) ≢ b ++ (d ∷ t)
ends_differ p a b s t c d differ h =
    differ (sym (back_is-append p a s c) ∙ ap (back_is p) h ∙ back_is-append p b t d)

is_c : ℕ → Bool
is_c x = x == b'c'

is_k : ℕ → Bool
is_k x = x == b'k'

-- A main file is no other file.
main-alone : (a b : Str) (r : Role) → r ≢ main → a ++ suffix main ≢ b ++ suffix r
unfolding is_c back_is
main-alone a b main n h = n refl
main-alone a b backup n h = ends_differ is_c a b _ _ _ _ (λ e. cc e) h
main-alone a b temp n h = ends_differ is_c a b _ _ _ _ (λ e. cc e) h
main-alone a b temp_temp n h = ends_differ is_c a b _ _ _ _ (λ e. cc e) h

backup-alone : (a b : Str) (r : Role) → r ≢ backup → a ++ suffix backup ≢ b ++ suffix r
unfolding is_k back_is
backup-alone a b backup n h = n refl
backup-alone a b main n h = ends_differ is_k a b _ _ _ _ (λ e. cc e) h
backup-alone a b temp n h = ends_differ is_k a b _ _ _ _ (λ e. cc e) h
backup-alone a b temp_temp n h = ends_differ is_k a b _ _ _ _ (λ e. cc e) h

-- Without the last ".tmp", one of the two is a main file's name.
temp-alone : (a b : Str) → a ++ suffix temp ≢ b ++ suffix temp_temp
temp-alone a b h =
    main-alone a b temp (λ e. cc)
      (append_cancel_right (a ++ suffix main) (b ++ suffix temp) (codes ".tmp")
        (simp append_assoc h))

-- Two file names of the form id and suffix, for the main file, its backup and the two temporary
-- files, are equal only for one id and one suffix.
pub suffix-injective : (a b : Str) (r s : Role) → a ++ suffix r ≡ b ++ suffix s → (a ≡ b) × (r ≡ s)
suffix-injective a b main main h = (append_cancel_right a b _ h, refl)
suffix-injective a b backup backup h = (append_cancel_right a b _ h, refl)
suffix-injective a b temp temp h = (append_cancel_right a b _ h, refl)
suffix-injective a b temp_temp temp_temp h = (append_cancel_right a b _ h, refl)
suffix-injective a b temp temp_temp h = absurd (temp-alone a b h)
suffix-injective a b temp_temp temp h = absurd (temp-alone b a (sym h))
suffix-injective a b main s h = absurd (main-alone a b s (λ e. cc) h)
suffix-injective a b backup s h = absurd (backup-alone a b s (λ e. cc) h)
suffix-injective a b r main h = absurd (main-alone b a r (λ e. cc) (sym h))
suffix-injective a b r backup h = absurd (backup-alone b a r (λ e. cc) (sym h))

-- A text of more than two characters with no slash and no NUL byte is a name.
IsName-long : (s : Str) → has_char b'/' s ≡ false → IsPlain s → 2 < length s → IsName s
IsName-long s h z n = record {
  plain = z;
  not_empty = λ e. omega (arith, ap length e);
  no_slash = h;
  not_dot = λ e. omega (arith, ap length e);
  not_dots = λ e. omega (arith, ap length e);
}

suffix-lem : (r : Role) → (has_char b'/' (suffix r) ≡ false) × (2 < length (suffix r))
unfolding has_char
suffix-lem main = (refl, omega arith)
suffix-lem backup = (refl, omega arith)
suffix-lem temp = (refl, omega arith)
suffix-lem temp_temp = (refl, omega arith)

suffix-backslash : (r : Role) → has_char 0x5c (suffix r) ≡ false
unfolding has_char
suffix-backslash main = refl
suffix-backslash backup = refl
suffix-backslash temp = refl
suffix-backslash temp_temp = refl

suffix-IsPlain : (r : Role) → IsPlain (suffix r)
unfolding has_char
suffix-IsPlain main = refl
suffix-IsPlain backup = refl
suffix-IsPlain temp = refl
suffix-IsPlain temp_temp = refl

-- An accepted id with no NUL byte: its files are named by its paths as a whole.
abbrev pub Named : Str → Type 0
Named data_id = (validate_data_id data_id ≡ success) × IsPlain data_id

-- The file of such an id is an entry of the root directory.
pub file-IsName : (data_id : Str) (r : Role) → Named data_id → IsName (data_id ++ suffix r)
file-IsName data_id r (v, z) =
    IsName-long _ (rw (has_char-append, (validate_data_id-searches data_id v).1) (suffix-lem r).0)
      (append-IsPlain data_id (suffix r) z (suffix-IsPlain r))
      (omega (arith, length-append {0} data_id (suffix r), (suffix-lem r).1))

-- Two files of such ids, of different ids or roles, are two entries of the root directory.
pub entry-Apart :
    (root a b : Str) (r s : Role)
    → IsBase root
    → Named a
    → Named b
    → (a ≢ b) ⊎ (r ≢ s)
    → Apart (entry root a r) (entry root b s)
entry-Apart root a b r s base va vb differ = record {
  base = root;
  left = a ++ suffix r;
  right = b ++ suffix s;
  base_is = base;
  left_is = file-IsName a r va;
  right_is = file-IsName b s vb;
  differ = λ e.
      let same = suffix-injective a b r s e in elim differ [ inl d ↦ d same.0 | inr d ↦ d same.1 ];
  left_eq = refl;
  right_eq = refl;
}

-- An entry of such an id has no separator in its name.
pub file-NoSeparator :
    (data_id : Str) (r : Role) → Named data_id → NoSeparator (data_id ++ suffix r)
file-NoSeparator data_id r (v, _) =
    let (_, slash, backslash, _) = validate_data_id-searches data_id v in
    (
      rw (has_char-append, slash) (suffix-lem r).0,
      rw (has_char-append, backslash) (suffix-backslash r),
    )

pub entry-ne-nil : (root data_id : Str) (r : Role) → IsBase root → entry root data_id r ≢ []
entry-ne-nil root data_id r (slashed [] _) e = cc
entry-ne-nil root data_id r (slashed (c ∷ d) _) e = cc
