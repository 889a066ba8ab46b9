-- ===== src/Crypto/KeyProvider.antt =====
-- `KeyProvider` (src/crypto/KeyProvider.h, src/crypto/KeyProvider.cpp).
pub mod Laws
use secure_storage.Base.{ℕ, Bool, not, Option, none, some, [], ◌==◌, if◌then◌else◌}
use secure_storage.Base.Text.{Str, Bytes, codes, empty}
use secure_storage.Error.{
  Errc, success, invalid_argument, crypto_library_error, key_derivation_failed,
}
use secure_storage.Crypto.{Mbedtls}

abbrev pub hkdf_salt_default : Str
hkdf_salt_default = codes "DefaultSecureStorageAppSalt-V1"

abbrev pub hkdf_info_default : Str
hkdf_info_default = codes "SecureStorage-AES-256-GCM-Key-V1"

pub record KeyProvider : Type 0 where
  pub device_serial_number : Str
  pub salt : Str
  pub info : Str

-- The constructor: an empty salt or info falls back to the default.
unfoldable pub key_provider : Str → Str → Str → KeyProvider
key_provider device_serial_number salt info = record {
  device_serial_number = device_serial_number;
  salt = if empty salt then hkdf_salt_default else salt;
  info = if empty info then hkdf_info_default else info;
}

-- The move constructor: the new object. The strings that are left in the other are not specified.
unfoldable pub moved_provider : KeyProvider → KeyProvider
moved_provider other = record {
  device_serial_number = other.device_serial_number;
  salt = other.salt;
  info = other.info;
}

-- The move assignment, by whether the two are one object.
unfoldable pub assigned_provider : Bool → KeyProvider → KeyProvider → KeyProvider
assigned_provider same this other = if same then this else moved_provider other

module _ (mb : Mbedtls) where
  -- The code, and `outputKey` from its value before the call.
  unfoldable pub get_encryption_key : KeyProvider → Bytes → ℕ → Errc × Bytes
  get_encryption_key kp output_key key_length_bytes =
      if empty kp.device_serial_number
      then (invalid_argument, output_key)
      else if key_length_bytes == 0
      then (invalid_argument, output_key)
      else if not mb.has_sha256
      then (crypto_library_error, output_key)
      else elim (mb.hkdf kp.salt kp.device_serial_number kp.info key_length_bytes) [
        | none ↦ (key_derivation_failed, [])
        | some key ↦ (success, key)
      ]
