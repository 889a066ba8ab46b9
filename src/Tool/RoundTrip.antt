-- ===== src/Tool/RoundTrip.antt =====
-- What the file utility encrypts, it decrypts.
use secure_storage.Base.{
  ℕ, ◌+◌, ◌≡◌, ◌≢◌, refl, subst, ◌∙◌, inl, inr, false, Option, none, some, List, [], ◌∷◌, ◌++◌,
  arith, length,
}
use secure_storage.Base.Text.{Str, Bytes, codes, empty, str_eq}
use secure_storage.Error.{Errc, success, is_success, is_success_iff}
use secure_storage.Os.{Os}
use secure_storage.Os.Posix.{IsPosix, IsBase, IsName, file, device}
use secure_storage.FileUtil.{read_file, atomic_write_file, temp_file_util_suffix}
use secure_storage.FileUtil.Reading.{read_file-bytes}
use secure_storage.FileUtil.Atomic.{atomic_write_file_all_or_nothing}
use secure_storage.Crypto.{Mbedtls, IsLawful}
use secure_storage.Crypto.KeyProvider.{
  key_provider, get_encryption_key, hkdf_salt_default, hkdf_info_default,
}
use secure_storage.Crypto.Encryptor.{Encryptor, encryptor, encrypt, default_seed, ready?}
use secure_storage.Crypto.Encryptor.Laws.{IsSealed, encrypt-IsSealed}
use secure_storage.Crypto.Encryptor.Decrypting.{encrypt-length, decrypt-sealed}
use secure_storage.Tool.{OutStream, encrypt_file, decrypt_file, run, main}

some-empty : (bytes : Bytes) (n : ℕ) → length bytes ≡ 28 + n → empty bytes ≡ false
some-empty [] n h = absurd (omega (arith, h))
some-empty (b ∷ bytes) n h = refl

module _ (os : Os) (mb : Mbedtls) (stream : OutStream os.World) where
  abbrev key_of : Str → Errc × Bytes
  key_of serial =
      get_encryption_key mb (key_provider serial hkdf_salt_default hkdf_info_default) [] 32

  -- What an exit code 0 of the encryption says.
  encrypt_file-zero :
      (key : Bytes) (e : Encryptor mb) (input output : Str) (w w' : os.World) (shown : Option Bytes)
      → encrypt_file os mb stream key e input output w ≡ (0, shown, w')
      → ((read_file os input w).0 ≡ success)
        × ((encrypt mb (read_file os input w).1 key [] [] e).0 ≡ success)
        × ((atomic_write_file os output (encrypt mb (read_file os input w).1 key [] [] e).1 w).0
            ≡ success)
        × ((atomic_write_file os output (encrypt mb (read_file os input w).1 key [] [] e).1 w).1
            ≡ w')
  unfolding encrypt_file
  encrypt_file-zero key e input output w w' shown h = ground (
    arith,
    is_success_iff (read_file os input w).0,
    is_success_iff (encrypt mb (read_file os input w).1 key [] [] e).0,
    is_success_iff
        (atomic_write_file os output (encrypt mb (read_file os input w).1 key [] [] e).1 w).0,
  )

  -- What an exit code 0 of the program with the mode `encrypt` says.
  run-zero :
      (serial input output : Str) (entropy : mb.Rng) (w w' : os.World) (shown : Option Bytes)
      → run os mb stream (codes "encrypt") serial input output entropy w ≡ (0, shown, w')
      → (empty serial ≡ false)
        × (empty output ≡ false)
        × ((key_of serial).0 ≡ success)
        × (encrypt_file os mb stream
              (key_of serial).1
              (encryptor mb default_seed entropy)
              input
              output
              w
            ≡ (0, shown, w'))
  unfolding run str_eq
  run-zero serial input output entropy w w' shown h =
      ground (arith, is_success_iff (key_of serial).0)

  run-decrypt :
      (serial input : Str) (entropy : mb.Rng) (w : os.World)
      → empty serial ≡ false
      → empty input ≡ false
      → (key_of serial).0 ≡ success
      → run os mb stream (codes "decrypt") serial input (codes "-") entropy w
        ≡ decrypt_file os mb stream
            (key_of serial).1
            (encryptor mb default_seed entropy)
            input
            (codes "-")
            w
  unfolding run str_eq
  run-decrypt serial input entropy w s i k = ground (arith, is_success_iff (key_of serial).0)

module _ (os : Os) (P : IsPosix os) (mb : Mbedtls) (L : IsLawful mb) (stream : OutStream os.World)
    (base name : Str) (b : IsBase base) (n : IsName name) where
  -- What is sealed in the file is printed.
  decrypt_file-sealed :
      (key : Bytes) (e : Encryptor mb) (plain bytes : Bytes) (w : os.World)
      → ready? mb e ≢ none
      → P.node w (base ++ name) ≡ some (file bytes)
      → (read_file os (base ++ name) w).0 ≡ success
      → empty bytes ≡ false
      → IsSealed mb L plain key [] bytes
      → decrypt_file os mb stream key e (base ++ name) (codes "-") w ≡ (0, some plain, w)
  unfolding decrypt_file is_success str_eq
  decrypt_file-sealed key e plain bytes w ready node read some_bytes sealed =
      rw
        (
          read,
          read_file-bytes os P (base ++ name) w bytes node read,
          some_bytes,
          decrypt-sealed mb L plain key [] bytes [] e sealed ready,
        )
        refl

  -- For an input file that is a regular file, and an output path that is an entry, with no NUL byte
  -- in its name, of a directory whose path has no NUL byte and ends in a slash, with no device at
  -- its temporary path: if the file utility has encrypted the input to the output with exit code 0,
  -- the output can be read afterwards, and the encryptor of a later run is ready, then decrypting
  -- the output to the console with the same serial number exits with 0, prints the bytes of the
  -- input and changes nothing.
  pub main-main :
      (program serial input : Str) (bytes : Bytes) (rest : List Str) (entropy entropy' : mb.Rng)
      (w w' : os.World) (shown : Option Bytes)
      → P.node w input ≡ some (file bytes)
      → P.node w ((base ++ name) ++ temp_file_util_suffix) ≢ some device
      → main os mb stream
          (program ∷ codes "encrypt" ∷ serial ∷ input ∷ (base ++ name) ∷ rest)
          entropy
          w
        ≡ (0, shown, w')
      → ready? mb (encryptor mb default_seed entropy') ≢ none
      → (read_file os (base ++ name) w').0 ≡ success
      → main os mb stream
          (program ∷ codes "decrypt" ∷ serial ∷ (base ++ name) ∷ codes "-" ∷ rest)
          entropy'
          w'
        ≡ (0, some bytes, w')
  unfolding main
  main-main program serial input bytes rest entropy entropy' w w' shown node no_device h ready
        readable =
      let (some_serial, some_output, key_ok, zero) =
        run-zero os mb stream serial input (base ++ name) entropy w w' shown h in
      let (reads, encrypts, writes, same_w) =
        encrypt_file-zero os mb stream key e input (base ++ name) w w' shown zero in
      let same_bytes = read_file-bytes os P input w bytes node reads in
      run-decrypt os mb stream serial (base ++ name) entropy' w' some_serial some_output key_ok
      ∙ decrypt_file-sealed key (encryptor mb default_seed entropy') bytes sealed w' ready
          (subst (λ v. P.node v (base ++ name) ≡ some (file sealed)) same_w (written writes))
          readable
          (some-empty sealed (length plain) ((encrypt-length mb L plain key [] [] e).0 encrypts))
          (subst (λ p. IsSealed mb L p key [] sealed) same_bytes
            (encrypt-IsSealed mb L plain key [] [] e encrypts))
    where
      key : Bytes
      key = (key_of os mb stream serial).1

      e : Encryptor mb
      e = encryptor mb default_seed entropy

      plain : Bytes
      plain = (read_file os input w).1

      sealed : Bytes
      sealed = (encrypt mb plain key [] [] e).1

      written :
          (atomic_write_file os (base ++ name) sealed w).0 ≡ success
          → P.node (atomic_write_file os (base ++ name) sealed w).1 (base ++ name)
            ≡ some (file sealed)
      written ok = elim (atomic_write_file_all_or_nothing os P base name b n sealed w no_device) [
        | inl done ↦ done.1
        | inr failed ↦ absurd (failed.0 ok)
      ]
