-- ===== src/Tests/Parts.antt =====
-- The theorems on encryption, keys and names at concrete inputs.
use secure_storage.Naming.Nul.{twin_of-paths, twin_of}
use secure_storage.Base.{
  ◌≢◌, ℕ, ◌≡◌, ◌≢◌, ◌↔◌, refl, ◌⊎◌, true, false, none, some, List, [], ◌∷◌, ◌++◌, length, replicate,
}
use secure_storage.Base.Text.{back_is, has_char, c_str, Str, Bytes, codes, str_eq}
use secure_storage.Error.{success, invalid_argument, crypto_library_error, key_derivation_failed}
use secure_storage.Crypto.KeyProvider.{KeyProvider, get_encryption_key}
use secure_storage.Crypto.KeyProvider.Laws.{get_encryption_key_lem}
use secure_storage.Crypto.Encryptor.{decrypt, ready?, open_parts}
use secure_storage.Crypto.Encryptor.Laws.{IsSealed}
use secure_storage.Crypto.Encryptor.Decrypting.{decrypt-sealed, decrypt-IsSealed}
use secure_storage.Crypto.Toy.{toy, toy-IsLawful}
use secure_storage.Naming.{
  get_temp_file_path, get_backup_file_path, get_data_file_path, validate_data_id, ends_with,
  data_file_extension,
}
use secure_storage.Naming.Ids.{IsId, validate_data_id_iff}
use secure_storage.Tests.Values.{
  valid_id, an_id, top, some_data, key, an_encryptor, sealed_data, sealed_data-IsSealed,
}

is_ready : ready? toy an_encryptor ≢ none
unfolding ready?
is_ready e = cc

decrypt-sealed_example : decrypt toy sealed_data key [] [] an_encryptor ≡ (success, some_data)
decrypt-sealed_example =
    decrypt-sealed toy toy-IsLawful some_data key [] sealed_data [] an_encryptor
      sealed_data-IsSealed is_ready

decrypts : (decrypt toy sealed_data key [] [] an_encryptor).0 ≡ success
unfolding decrypt open_parts ready? str_eq
decrypts = refl

decrypt-IsSealed_example :
    IsSealed toy toy-IsLawful (decrypt toy sealed_data key [] [] an_encryptor).1 key [] sealed_data
decrypt-IsSealed_example =
    decrypt-IsSealed toy toy-IsLawful sealed_data key [] [] an_encryptor decrypts

-- A tag of ones.
abbrev forged : Bytes
forged = replicate 12 7 ++ (some_data ++ replicate 16 1)

forged_fails : (decrypt toy forged key [] [] an_encryptor).0 ≢ success
unfolding decrypt open_parts ready? str_eq
forged_fails e = cc

abbrev provider : KeyProvider
provider = record { device_serial_number = codes "S1"; salt = codes "s"; info = codes "i" }

abbrev size : ℕ
size = 32

get_encryption_key_lem_example :
    let (e, k) = get_encryption_key toy provider [] size in
    ((e ≡ invalid_argument) × ((provider.device_serial_number ≡ []) ⊎ (size ≡ 0)) × (k ≡ []))
    ⊎ ((e ≡ crypto_library_error) × (toy.has_sha256 ≡ false) × (k ≡ []))
    ⊎ ((e ≡ key_derivation_failed)
        × (toy.hkdf provider.salt provider.device_serial_number provider.info size ≡ none)
        × (k ≡ []))
    ⊎ ((e ≡ success)
        × (provider.device_serial_number ≢ [])
        × (toy.hkdf provider.salt provider.device_serial_number provider.info size ≡ some k)
        × (length k ≡ size))
get_encryption_key_lem_example = get_encryption_key_lem toy toy-IsLawful provider [] size

validate_data_id_iff_example :
    ((validate_data_id (codes "a..b") ≡ success) ↔ IsId (codes "a..b"))
    × ((validate_data_id (codes "a..b") ≡ success)
        ⊎ (validate_data_id (codes "a..b") ≡ invalid_argument))
validate_data_id_iff_example = validate_data_id_iff (codes "a..b")

abbrev files : List Str
files = codes "b.enc" ∷ codes "a.enc.bak" ∷ codes "a.enc" ∷ []

ends : ends_with (codes "a.enc") data_file_extension ≡ true
unfolding ends_with str_eq
ends = refl

-- The id "a.enc" with a NUL byte has the main file of "a" for all its paths.
twin_of-paths_example :
    (validate_data_id (twin_of an_id) ≡ success)
    × (twin_of an_id ≢ an_id)
    × (c_str (get_data_file_path top (twin_of an_id)) ≡ get_data_file_path top an_id)
    × (c_str (get_backup_file_path top (twin_of an_id)) ≡ get_data_file_path top an_id)
    × (c_str (get_temp_file_path top (twin_of an_id)) ≡ get_data_file_path top an_id)
unfolding has_char back_is
twin_of-paths_example = twin_of-paths top an_id refl valid_id refl
