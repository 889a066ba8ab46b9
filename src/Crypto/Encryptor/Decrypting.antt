-- ===== src/Crypto/Encryptor/Decrypting.antt =====
-- `Encryptor::decrypt` against what `encrypt` wrote.
use secure_storage.Crypto.Encryptor.Laws.{IsSealed, encrypt-IsSealed, IsSealed-length}
use secure_storage.Base.{
  ℕ, zero, suc, ◌+◌, ◌-◌, ◌≤◌, ◌≡◌, ◌≢◌, refl, sym, ap, ◌⊎◌, inl, inr, false, none, [], ◌++◌,
  append_assoc, arith, length, take, drop, take-append, drop-append, drop-drop, length-take,
  replicate, take-append-drop, length-append, Option-cases,
}
use secure_storage.Base.Text.{Bytes}
use secure_storage.Error.{Errc, success, crypto_library_error}
use secure_storage.Crypto.{Mbedtls, IsLawful, Opened, opened, auth_failed, open_failed}
use secure_storage.Crypto.Encryptor.{Encryptor, ready?, encrypt, open_parts, decrypt, resize}

Opened-cases :
    (o : Opened) → ((p : Bytes) × (o ≡ opened p)) ⊎ ((o ≡ auth_failed) ⊎ (o ≡ open_failed))
Opened-cases (opened p) = inl (p, refl)
Opened-cases auth_failed = inr (inl refl)
Opened-cases open_failed = inr (inr refl)

-- An empty vector is resized to zeros.
resize-nil : (n : ℕ) → resize n [] ≡ replicate n 0
resize-nil zero = refl
resize-nil (suc n) = let all : suc n - 0 ≡ suc n = omega arith in rw all

module _ (mb : Mbedtls) (L : IsLawful mb) where
  open_parts-sealed :
      (plaintext key aad output out : Bytes)
      → IsSealed mb L plaintext key aad output
      → open_parts mb output key out aad ≡ (success, plaintext)
  unfolding open_parts
  open_parts-sealed plaintext key aad output out s = rw (
    s.output_eq,
    iv_part,
    after_iv,
    cipher_length,
    cipher_part,
    tag_part,
    s.key_set,
    L.open_sealed key s.iv aad plaintext s.cipher s.tag s.sealed,
  )
    where
      rest : Bytes
      rest = s.cipher ++ s.tag

      iv_part : take 12 (s.iv ++ rest) ≡ s.iv
      iv_part = take-append 12 s.iv rest s.iv_length

      after_iv : drop 12 (s.iv ++ rest) ≡ rest
      after_iv = drop-append 12 s.iv rest s.iv_length

      cipher_length : length (s.iv ++ rest) - 12 - 16 ≡ length s.cipher
      cipher_length = omega (
        arith,
        length-append {0} s.iv rest,
        length-append {0} s.cipher s.tag,
        s.iv_length,
        L.seal_lengths key s.iv aad plaintext s.cipher s.tag s.sealed,
      )

      cipher_part : take (length s.cipher) rest ≡ s.cipher
      cipher_part = take-append (length s.cipher) s.cipher s.tag refl

      tag_part : drop (12 + length s.cipher) (s.iv ++ rest) ≡ s.tag
      tag_part = rw (← append_assoc s.iv s.cipher s.tag) (
          drop-append _ (s.iv ++ s.cipher) s.tag
            (omega (arith, length-append {0} s.iv s.cipher, s.iv_length)))

  -- An encryptor that is ready decrypts what is sealed under a key and additional data, given the
  -- same key and data, to the plaintext with success.
  pub decrypt-sealed :
      (plaintext key aad output out : Bytes) (e : Encryptor mb)
      → IsSealed mb L plaintext key aad output
      → ready? mb e ≢ none
      → decrypt mb output key out aad e ≡ (success, plaintext)
  unfolding decrypt
  decrypt-sealed plaintext key aad output out e s r = elim (Option-cases (ready? mb e)) [
    | inl n ↦ absurd (r n)
    | inr (i, n) ↦ ground (
      arith,
      open_parts-sealed plaintext key aad output out s,
      IsSealed-length mb L plaintext key aad output s,
      s.key_length,
    )
  ]

  -- A successful `decrypt` passed its checks.
  decrypt-eq-success :
      (input key out aad : Bytes) (e : Encryptor mb)
      → (decrypt mb input key out aad e).0 ≡ success
      → (length key ≡ 32)
        × (28 ≤ length input)
        × (decrypt mb input key out aad e ≡ open_parts mb input key out aad)
  unfolding decrypt
  decrypt-eq-success input key out aad e h = elim (Option-cases (ready? mb e)) [
    | inl r ↦ absurd (ground arith)
    | inr (i, r) ↦ ground arith
  ]

  open_parts-IsSealed :
      (input key out aad : Bytes)
      → length key ≡ 32
      → 28 ≤ length input
      → (open_parts mb input key out aad).0 ≡ success
      → IsSealed mb L (open_parts mb input key out aad).1 key aad input
  unfolding open_parts
  open_parts-IsSealed input key out aad k n h =
      elim (Opened-cases (mb.gcm_open key iv aad tag cipher)) [
        | inl (plain, o) ↦ record {
          iv = iv;
          cipher = cipher;
          tag = tag;
          key_length = k;
          key_set = ground arith;
          iv_length = length-take 12 input (omega arith);
          sealed =
              L.sealed_opened key iv aad _ cipher tag
                (rw (ap (λ (r : Errc × Bytes). r.1) (result plain o)) o);
          output_eq = sym (rw whole (take-append-drop 12 input));
        }
        | inr f ↦ absurd (ground arith)
      ]
    where
      len : ℕ
      len = length input - 12 - 16

      iv : Bytes
      iv = take 12 input

      cipher : Bytes
      cipher = take len (drop 12 input)

      tag : Bytes
      tag = drop (12 + len) input

      result :
          (plain : Bytes)
          → mb.gcm_open key iv aad tag cipher ≡ opened plain
          → open_parts mb input key out aad ≡ (success, plain)
      result plain o = ground arith

      whole : cipher ++ tag ≡ drop 12 input
      whole = rw (drop-drop 12 len (12 + len) input refl) (take-append-drop len (drop 12 input))

  -- If `decrypt` reports success, its input is the output plaintext, sealed under the key and the
  -- additional data.
  pub decrypt-IsSealed :
      (input key out aad : Bytes) (e : Encryptor mb)
      → (decrypt mb input key out aad e).0 ≡ success
      → IsSealed mb L (decrypt mb input key out aad e).1 key aad input
  decrypt-IsSealed input key out aad e h =
      let (k, n, same) = decrypt-eq-success input key out aad e h in
      rw same (open_parts-IsSealed input key out aad k n (rw same at h))

  -- If `encrypt` reports success, its output is 28 bytes longer than its input, and if `decrypt`
  -- reports success, its input is 28 bytes longer than its output.
  pub encrypt-length :
      (input key out aad : Bytes) (e : Encryptor mb)
      → ((encrypt mb input key out aad e).0 ≡ success
          → length (encrypt mb input key out aad e).1 ≡ 28 + length input)
        × ((decrypt mb input key out aad e).0 ≡ success
            → length input ≡ 28 + length (decrypt mb input key out aad e).1)
  encrypt-length input key out aad e = (
    λ h. IsSealed-length mb L input key aad _ (encrypt-IsSealed mb L input key out aad e h),
    λ h. IsSealed-length mb L _ key aad input (decrypt-IsSealed input key out aad e h),
  )

  -- If `decrypt` into an empty buffer reports an error, the buffer is empty, or the code is
  -- `CryptoLibraryError`, the library refuses the key, and the buffer holds a zero for each byte of
  -- the ciphertext.
  pub decrypt-failed :
      (input key aad : Bytes) (e : Encryptor mb)
      → let (code, out) = decrypt mb input key [] aad e in
        code ≢ success
        → (out ≡ [])
          ⊎ ((code ≡ crypto_library_error)
              × (mb.gcm_setkey key ≡ false)
              × (out ≡ replicate (length input - 12 - 16) 0))
  unfolding decrypt open_parts
  decrypt-failed input key aad e h = ground (arith, resize-nil (length input - 12 - 16))
