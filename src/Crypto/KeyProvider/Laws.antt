-- ===== src/Crypto/KeyProvider/Laws.antt =====
-- What `KeyProvider::getEncryptionKey` gives, on every branch.
use secure_storage.Base.{
  ℕ, ◌≡◌, ◌≢◌, refl, ◌⊎◌, inl, inr, false, none, some, [], ◌∷◌, arith, length, Option-cases,
}
use secure_storage.Base.Text.{Str, Bytes, empty}
use secure_storage.Error.{success, invalid_argument, crypto_library_error, key_derivation_failed}
use secure_storage.Crypto.{Mbedtls, IsLawful}
use secure_storage.Crypto.KeyProvider.{KeyProvider, key_provider, get_encryption_key}

-- The salt and the info of a provider are never empty.
pub key_provider_defaults :
    (serial salt info : Str)
    → (empty (key_provider serial salt info).salt ≡ false)
      × (empty (key_provider serial salt info).info ≡ false)
unfolding key_provider
key_provider_defaults serial [] [] = (refl, refl)
key_provider_defaults serial [] (c ∷ s) = (refl, refl)
key_provider_defaults serial (c ∷ s) [] = (refl, refl)
key_provider_defaults serial (c ∷ s) (d ∷ t) = (refl, refl)

module _ (mb : Mbedtls) (L : IsLawful mb) (kp : KeyProvider) (out : Bytes) (n : ℕ) where
  -- `getEncryptionKey` reports an invalid argument only for an empty serial number or the length 0,
  -- and a missing hash as a library error, and both leave the output alone; a failed derivation
  -- leaves it empty; a success gives the key that HKDF derives from salt, serial number and info,
  -- and it has the length asked for.
  pub get_encryption_key_lem :
      let (e, key) = get_encryption_key mb kp out n in
      ((e ≡ invalid_argument) × ((kp.device_serial_number ≡ []) ⊎ (n ≡ 0)) × (key ≡ out))
      ⊎ ((e ≡ crypto_library_error) × (mb.has_sha256 ≡ false) × (key ≡ out))
      ⊎ ((e ≡ key_derivation_failed)
          × (mb.hkdf kp.salt kp.device_serial_number kp.info n ≡ none)
          × (key ≡ []))
      ⊎ ((e ≡ success)
          × (kp.device_serial_number ≢ [])
          × (mb.hkdf kp.salt kp.device_serial_number kp.info n ≡ some key)
          × (length key ≡ n))
  unfolding get_encryption_key
  get_encryption_key_lem = elim (Option-cases (mb.hkdf kp.salt kp.device_serial_number kp.info n)) [
    | inl e ↦ ground arith
    | inr (key, e) ↦ ground (arith, L.hkdf_length kp.salt kp.device_serial_number kp.info n key)
  ]
