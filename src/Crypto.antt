-- ===== src/Crypto.antt =====
-- The cryptographic components. Mbed TLS is not part of the repository: its calls are the operations
-- of an interface, with the laws that the sources rely on.
pub mod KeyProvider
pub mod Encryptor
pub mod Toy
use secure_storage.Base.{ℕ, ◌≡◌, Bool, Option, some, length}
use secure_storage.Base.Text.{Str, Bytes}

-- `mbedtls_gcm_auth_decrypt`: 0 and the plaintext, `MBEDTLS_ERR_GCM_AUTH_FAILED`, or another error.
pub data Opened : Type 0 where
  opened : Bytes → Opened
  auth_failed : Opened
  open_failed : Opened

pub record Mbedtls : Type 1 where
  -- A CTR_DRBG context with its entropy source.
  pub Rng : Type 0
  -- `mbedtls_ctr_drbg_seed`, and whether it gave 0.
  pub seed : Rng → Str → Bool × Rng
  -- `mbedtls_ctr_drbg_random` for this many bytes; `none` is an error.
  pub random : Rng → ℕ → Option Bytes × Rng
  -- `mbedtls_gcm_setkey`: whether it gave 0 for this key.
  pub gcm_setkey : Bytes → Bool
  -- `mbedtls_gcm_crypt_and_tag` by key, IV, additional data and plaintext: ciphertext and tag.
  pub gcm_seal : Bytes → Bytes → Bytes → Bytes → Option (Bytes × Bytes)
  -- `mbedtls_gcm_auth_decrypt` by key, IV, additional data, tag and ciphertext.
  pub gcm_open : Bytes → Bytes → Bytes → Bytes → Bytes → Opened
  -- `mbedtls_md_info_from_type(MBEDTLS_MD_SHA256) != nullptr`
  pub has_sha256 : Bool
  -- `mbedtls_hkdf` by salt, input keying material, info and output length.
  pub hkdf : Str → Str → Str → ℕ → Option Bytes

abbrev pub tag_size : ℕ
tag_size = 16

pub record IsLawful (mb : Mbedtls) : Type 0 where
  pub random_length :
      (r : mb.Rng) (n : ℕ) (bytes : Bytes) → (mb.random r n).0 ≡ some bytes → length bytes ≡ n
  pub seal_lengths :
      (key iv aad plain cipher tag : Bytes)
      → mb.gcm_seal key iv aad plain ≡ some (cipher, tag)
      → (length cipher ≡ length plain) × (length tag ≡ tag_size)
  -- What was sealed opens under the same key, IV and additional data.
  pub open_sealed :
      (key iv aad plain cipher tag : Bytes)
      → mb.gcm_seal key iv aad plain ≡ some (cipher, tag)
      → mb.gcm_open key iv aad tag cipher ≡ opened plain
  -- Only what sealing gives opens.
  pub sealed_opened :
      (key iv aad plain cipher tag : Bytes)
      → mb.gcm_open key iv aad tag cipher ≡ opened plain
      → mb.gcm_seal key iv aad plain ≡ some (cipher, tag)
  pub hkdf_length :
      (salt ikm info : Str) (n : ℕ) (key : Bytes)
      → mb.hkdf salt ikm info n ≡ some key
      → length key ≡ n
