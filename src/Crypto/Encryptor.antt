-- ===== src/Crypto/Encryptor.antt =====
-- `Encryptor` (src/crypto/Encryptor.h, src/crypto/Encryptor.cpp). The GCM context is keyed at the start
-- of each use and freed after it, so the key is passed to the calls instead.
pub mod Laws
pub mod Decrypting
use secure_storage.Base.{
  ℕ, ◌+◌, ◌-◌, Bool, true, false, not, Option, none, some, [], ◌++◌, ◌==◌, ltb, if◌then◌else◌,
  length, take, drop, replicate,
}
use secure_storage.Base.Text.{Str, Bytes, codes}
use secure_storage.Error.{
  Errc, success, not_initialized, invalid_argument, invalid_key, encryption_failed,
  decryption_failed, authentication_failed, crypto_library_error, is_success,
}
use secure_storage.Crypto.{Mbedtls, Opened, opened, auth_failed, open_failed}

abbrev pub aes_gcm_key_size_bytes : ℕ
aes_gcm_key_size_bytes = 32

abbrev pub aes_gcm_iv_size_bytes : ℕ
aes_gcm_iv_size_bytes = 12

abbrev pub aes_gcm_tag_size_bytes : ℕ
aes_gcm_tag_size_bytes = 16

-- The default of the constructor's `personalizationData`.
abbrev pub default_seed : Str
default_seed = codes "SecureStorageEncryptorSeed"

-- `std::vector::resize`
abbrev pub resize : ℕ → Bytes → Bytes
resize n bytes = take n bytes ++ replicate (n - length bytes) 0

module _ (mb : Mbedtls) where
  pub record Impl : Type 0 where
    pub initialized : Bool
    pub rng : mb.Rng

  -- `m_impl` is null in an object that was moved from.
  pub record Encryptor : Type 0 where
    pub impl : Option Impl

  -- The constructor, with the entropy that the system gives.
  unfoldable pub encryptor : Str → mb.Rng → Encryptor
  encryptor personalization_data entropy =
      let (seeded, rng) = mb.seed entropy personalization_data in
      record { impl = some (record { initialized = seeded; rng = rng }) }

  -- The move constructor: the new object and what is left of the old one.
  pub move : Encryptor → Encryptor × Encryptor
  move other = (record { impl = other.impl }, record { impl = none })

  -- The move assignment, by whether the two are one object: this object and the other.
  unfoldable pub move_assign : Bool → Encryptor → Encryptor → Encryptor × Encryptor
  move_assign same this other =
      if same then (this, this) else (record { impl = other.impl }, record { impl = none })

  -- The early return of every operation.
  unfoldable pub ready? : Encryptor → Option Impl
  ready? e = elim e.impl [ none ↦ none | some i ↦ if i.initialized then some i else none ]

  -- The object with its generator in a new state.
  abbrev with_rng : mb.Rng → Encryptor
  with_rng rng = record { impl = some (record { initialized = true; rng = rng }) }

  -- `generateIv` into an empty vector; what a failed call leaves in it is never read.
  unfoldable pub generate_iv : Encryptor → Errc × Bytes × Encryptor
  generate_iv e = elim (ready? e) [
    | none ↦ (not_initialized, [], e)
    | some i ↦
        let (iv?, rng) = mb.random i.rng aes_gcm_iv_size_bytes in
        elim iv? [
          | none ↦ (crypto_library_error, [], with_rng rng)
          | some iv ↦ (success, iv, with_rng rng)
        ]
  ]

  -- `encrypt` with its IV: the buffer is IV, ciphertext and tag. A key that is refused leaves it with
  -- the IV and what was there.
  unfoldable pub seal_with : Bytes → Bytes → Bytes → Bytes → Bytes → Errc × Bytes
  seal_with iv plaintext key output_buffer aad =
      let buffer =
        resize (aes_gcm_iv_size_bytes + length plaintext + aes_gcm_tag_size_bytes) output_buffer in
      if not (mb.gcm_setkey key)
      then (crypto_library_error, iv ++ drop aes_gcm_iv_size_bytes buffer)
      else elim (mb.gcm_seal key iv aad plaintext) [
        | none ↦ (encryption_failed, [])
        | some (cipher, tag) ↦ (success, iv ++ (cipher ++ tag))
      ]

  -- The code, `outputBuffer` from its value before the call, and the object afterwards.
  unfoldable pub encrypt : Bytes → Bytes → Bytes → Bytes → Encryptor → Errc × Bytes × Encryptor
  encrypt plaintext key output_buffer aad e = elim (ready? e) [
    | none ↦ (not_initialized, output_buffer, e)
    | some i ↦
        if not (length key == aes_gcm_key_size_bytes)
        then (invalid_key, output_buffer, e)
        else let (iv_err, iv, e') = generate_iv e in
          if not (is_success iv_err)
          then (iv_err, output_buffer, e')
          else let (code, out) = seal_with iv plaintext key output_buffer aad in (code, out, e')
  ]

  -- The result of the authenticated decryption, as a code and a buffer.
  abbrev opened_result : Opened → Errc × Bytes
  opened_result (opened plaintext) = (success, plaintext)
  opened_result auth_failed = (authentication_failed, [])
  opened_result open_failed = (decryption_failed, [])

  -- `decrypt` past its checks: the input is split into IV, ciphertext and tag.
  unfoldable pub open_parts : Bytes → Bytes → Bytes → Bytes → Errc × Bytes
  open_parts input_buffer key plaintext aad =
      let ciphertext_len = length input_buffer - aes_gcm_iv_size_bytes - aes_gcm_tag_size_bytes in
      let iv = take aes_gcm_iv_size_bytes input_buffer in
      let ciphertext = take ciphertext_len (drop aes_gcm_iv_size_bytes input_buffer) in
      let tag = drop (aes_gcm_iv_size_bytes + ciphertext_len) input_buffer in
      if not (mb.gcm_setkey key)
      then (crypto_library_error, resize ciphertext_len plaintext)
      else opened_result (mb.gcm_open key iv aad tag ciphertext)

  -- The code, and `plaintext` from its value before the call.
  unfoldable pub decrypt : Bytes → Bytes → Bytes → Bytes → Encryptor → Errc × Bytes
  decrypt input_buffer key plaintext aad e = elim (ready? e) [
    | none ↦ (not_initialized, plaintext)
    | some i ↦
        if not (length key == aes_gcm_key_size_bytes)
        then (invalid_key, plaintext)
        else if ltb (length input_buffer) (aes_gcm_iv_size_bytes + aes_gcm_tag_size_bytes)
        then (invalid_argument, plaintext)
        else open_parts input_buffer key plaintext aad
  ]
