-- ===== src/Tool.antt =====
-- The file utility (examples/basic_usage.cpp): `main`, which encrypts a file into another or decrypts one.
-- Log lines, the usage text and the calls of `printHex` are left out of it.

pub mod RoundTrip
use secure_storage.Base.{
  ℕ, ◌/◌, ◌%◌, ◌+◌, ◌-◌, Bool, true, false, not, ◌&&◌, ◌||◌, Option, none, some, List, [], ◌∷◌,
  ◌++◌, ltb, if◌then◌else◌,
}
use secure_storage.Base.Text.{Str, Bytes, codes, empty, str_eq}
use secure_storage.Error.{Errc, is_success}
use secure_storage.Os.{Os}
use secure_storage.FileUtil.{read_file, path_exists, atomic_write_file}
use secure_storage.Crypto.{Mbedtls}
use secure_storage.Crypto.KeyProvider.{
  key_provider, get_encryption_key, hkdf_salt_default, hkdf_info_default,
}
use secure_storage.Crypto.Encryptor.{
  Encryptor, encryptor, encrypt, decrypt, default_seed, aes_gcm_key_size_bytes,
}

-- A `std::ofstream`, which is not part of the repository.
pub record OutStream (World : Type 0) : Type 0 where
  -- `std::ofstream(path, binary | trunc)`: `is_open()`.
  pub create : World → Str → Bool × World
  -- `write(data, size)`
  pub put : World → Str → Bytes → World
  -- `close()`: `true` is a stream for which `fail()` does not hold.
  pub finish : World → Str → Bool × World

-- A digit as `std::hex` prints it.
abbrev pub hex_digit : ℕ → ℕ
hex_digit d = if ltb d 10 then b'0' + d else b'a' + (d - 10)

abbrev pub hex : Bytes → Str
hex [] = []
hex (byte ∷ data') = hex_digit (byte / 16) ∷ hex_digit (byte % 16) ∷ hex data'

-- `printHex`: the line without its end.
unfoldable pub print_hex : Str → Bytes → Str
print_hex prefix data' =
    prefix ++ (if empty data' then codes "<empty>" else codes "0x" ++ hex data')

-- The exit code, what `decrypt` printed of the data, and the world.
abbrev pub Exit : Type 0 → Type 0
Exit World = ℕ × Option Bytes × World

module _ (os : Os) (mb : Mbedtls) (stream : OutStream os.World) where
  open os use {World}

  unfoldable pub encrypt_file : Bytes → Encryptor mb → Str → Str → World → Exit World
  encrypt_file key e input output w =
      let (read_err, plain) = read_file os input w in
      if not (is_success read_err)
      then (1, none, w)
      else if empty plain && not (path_exists os w input)
      then (1, none, w)
      else let (enc_err, encrypted, e') = encrypt mb plain key [] [] e in
        if not (is_success enc_err)
        then (1, none, w)
        else let (write_err, w') = atomic_write_file os output encrypted w in
          if not (is_success write_err) then (1, none, w') else (0, none, w')

  -- The output of the data to a file that is not `-`.
  unfoldable pub write_plain : Str → Bytes → World → Exit World
  write_plain output plain w =
      let (is_open, w1) = stream.create w output in
      let w2 = if not (empty plain) then stream.put w1 output plain else w1 in
      let (good, w3) = stream.finish w2 output in
      if not is_open then (1, none, w1) else if not good then (1, none, w3) else (0, none, w3)

  unfoldable pub decrypt_file : Bytes → Encryptor mb → Str → Str → World → Exit World
  decrypt_file key e input output w =
      let (read_err, encrypted) = read_file os input w in
      if not (is_success read_err)
      then (1, none, w)
      else if empty encrypted
      then (1, none, w)
      else let (dec_err, plain) = decrypt mb encrypted key [] [] e in
        if not (is_success dec_err)
        then (1, none, w)
        else if str_eq output (codes "-")
        then (0, some plain, w)
        else write_plain output plain w

  -- `main` with its four arguments.
  unfoldable pub run : Str → Str → Str → Str → mb.Rng → World → Exit World
  run mode serial_number input_file output_file entropy w =
      if empty serial_number
      then (1, none, w)
      else if empty input_file || empty output_file
      then (1, none, w)
      else let kp = key_provider serial_number hkdf_salt_default hkdf_info_default in
        let e = encryptor mb default_seed entropy in
        let (key_err, key) = get_encryption_key mb kp [] aes_gcm_key_size_bytes in
        if not (is_success key_err)
        then (1, none, w)
        else if str_eq mode (codes "encrypt")
        then encrypt_file key e input_file output_file w
        else if str_eq mode (codes "decrypt")
        then decrypt_file key e input_file output_file w
        else (1, none, w)

  -- `main`, by `argv` with the name of the program.
  unfoldable pub main : List Str → mb.Rng → World → Exit World
  main (program ∷ mode ∷ serial ∷ input ∷ output ∷ rest) entropy w =
      run mode serial input output entropy w
  main _ entropy w = (1, none, w)
