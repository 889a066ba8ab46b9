-- ===== src/Error/Messages.antt =====
-- `static_cast<int>` of a code, the cast back, and `SecureStorageErrorCategory::message`.
use Prim.Native.String.{String}
use text.Mathlib.Text.{◌==◌ as str_eq}
use secure_storage.Base.{ℕ, ◌<◌, ◌≡◌, refl, false, arith, ◌==◌, if◌then◌else◌}
use secure_storage.Error.{
  Errc, success, unknown_error, invalid_argument, not_initialized, operation_failed,
  file_open_failed, file_read_failed, file_write_failed, file_remove_failed, file_rename_failed,
  path_not_found, access_denied, encryption_failed, decryption_failed, authentication_failed,
  key_derivation_failed, invalid_key, invalid_iv, crypto_library_error, data_not_found,
  data_already_exists, serialization_failed, deserialization_failed, watcher_start_failed,
  watcher_read_failed, file_tampered,
}

-- The enumerators' values: 0 for the first, and one more for each next one.
pub code : Errc → ℕ
code success = 0
code unknown_error = 1
code invalid_argument = 2
code not_initialized = 3
code operation_failed = 4
code file_open_failed = 5
code file_read_failed = 6
code file_write_failed = 7
code file_remove_failed = 8
code file_rename_failed = 9
code path_not_found = 10
code access_denied = 11
code encryption_failed = 12
code decryption_failed = 13
code authentication_failed = 14
code key_derivation_failed = 15
code invalid_key = 16
code invalid_iv = 17
code crypto_library_error = 18
code data_not_found = 19
code data_already_exists = 20
code serialization_failed = 21
code deserialization_failed = 22
code watcher_start_failed = 23
code watcher_read_failed = 24
code file_tampered = 25

-- The `switch` by the value of the condition; its `default` is the last line.
pub message : ℕ → String
unfolding code
message n =
    if n == code success
    then "Success"
    else if n == code unknown_error
    then "An unknown error occurred"
    else if n == code invalid_argument
    then "Invalid argument provided"
    else if n == code not_initialized
    then "Component or library not initialized"
    else if n == code operation_failed
    then "The requested operation failed"
    else if n == code file_open_failed
    then "Failed to open file"
    else if n == code file_read_failed
    then "Failed to read from file"
    else if n == code file_write_failed
    then "Failed to write to file"
    else if n == code file_remove_failed
    then "Failed to remove file"
    else if n == code file_rename_failed
    then "Failed to rename file"
    else if n == code path_not_found
    then "Specified path not found"
    else if n == code access_denied
    then "Access denied to file or resource"
    else if n == code encryption_failed
    then "Data encryption failed"
    else if n == code decryption_failed
    then "Data decryption failed"
    else if n == code authentication_failed
    then "Data authentication failed (e.g., GCM tag mismatch)"
    else if n == code key_derivation_failed
    then "Encryption key derivation failed"
    else if n == code invalid_key
    then "Invalid encryption key"
    else if n == code invalid_iv
    then "Invalid initialization vector (IV)"
    else if n == code crypto_library_error
    then "Error occurred within the underlying crypto library"
    else if n == code data_not_found
    then "Requested data not found"
    else if n == code data_already_exists
    then "Data with the given identifier already exists"
    else if n == code serialization_failed
    then "Data serialization failed"
    else if n == code deserialization_failed
    then "Data deserialization failed"
    else if n == code watcher_start_failed
    then "File watcher failed to start"
    else if n == code watcher_read_failed
    then "Failed to read events from file watcher"
    else if n == code file_tampered
    then "File watcher detected potential tampering"
    else "Unrecognized error code"

-- Every code has a message that is not the default text, and a number above the last code has that one.
pub message-code : (e : Errc) → str_eq (message (code e)) "Unrecognized error code" ≡ false
unfolding message
message-code success = refl
message-code _ = refl

pub message_default : (n : ℕ) → 25 < n → message n ≡ "Unrecognized error code"
unfolding message
message_default n h = ground arith
