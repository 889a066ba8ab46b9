-- ===== src/Error.antt =====
-- The library's error codes and their messages (src/utils/Error.h, src/utils/Error.cpp).
pub mod Messages
use secure_storage.Base.{ℕ, ◌≡◌, refl, ◌↔◌, Bool, true, false, arith}

pub data Errc : Type 0 where
  success : Errc
  unknown_error invalid_argument not_initialized operation_failed : Errc
  file_open_failed file_read_failed file_write_failed file_remove_failed file_rename_failed : Errc
  path_not_found access_denied : Errc
  encryption_failed decryption_failed authentication_failed key_derivation_failed : Errc
  invalid_key invalid_iv crypto_library_error : Errc
  data_not_found data_already_exists serialization_failed deserialization_failed : Errc
  watcher_start_failed watcher_read_failed file_tampered : Errc

-- The test `e == Errc::Success`.
unfoldable pub is_success : Errc → Bool
is_success success = true
is_success _ = false

pub is_success_iff : (e : Errc) → (is_success e ≡ true) ↔ (e ≡ success)
unfolding is_success
is_success_iff success = (λ _. refl, λ _. refl)
is_success_iff _ = (λ h. cc, λ h. cc)

pub is_success-success : is_success success ≡ true
unfolding is_success
is_success-success = refl
