-- ===== src/Crypto/Encryptor/Laws.antt =====
-- `Encryptor::encrypt`: the format of what it writes.
use secure_storage.Base.{
  ◌+◌, ◌≡◌, ◌≢◌, ap, inl, inr, true, none, some, ◌++◌, arith, length, length-append, Option-cases,
}
use secure_storage.Base.Text.{Bytes}
use secure_storage.Error.{success, is_success_iff}
use secure_storage.Crypto.{Mbedtls, IsLawful}
use secure_storage.Crypto.Encryptor.{Encryptor, ready?, generate_iv, seal_with, encrypt}

module _ (mb : Mbedtls) (L : IsLawful mb) where
  -- What `encrypt` wrote, when it reports success.
  pub record IsSealed (plaintext key aad output : Bytes) : Type 0 where
    pub iv : Bytes
    pub cipher : Bytes
    pub tag : Bytes
    pub key_length : length key ≡ 32
    pub key_set : mb.gcm_setkey key ≡ true
    pub iv_length : length iv ≡ 12
    pub sealed : mb.gcm_seal key iv aad plaintext ≡ some (cipher, tag)
    pub output_eq : output ≡ iv ++ (cipher ++ tag)

  generate_iv-length :
      (e : Encryptor mb) → (generate_iv mb e).0 ≡ success → length (generate_iv mb e).1 ≡ 12
  unfolding generate_iv
  generate_iv-length e h = elim (Option-cases (ready? mb e)) [
    | inl r ↦ absurd (ground arith)
    | inr (i, r) ↦ elim (Option-cases (mb.random i.rng 12).0) [
      | inl d ↦ absurd (ground arith)
      | inr (iv, d) ↦ rw (r, generate_iv) (rw (d) (L.random_length i.rng 12 iv d))
    ]
  ]

  -- A successful `encrypt` passed its checks and drew an IV.
  encrypt-eq-success :
      (plaintext key out aad : Bytes) (e : Encryptor mb)
      → (encrypt mb plaintext key out aad e).0 ≡ success
      → let iv = (generate_iv mb e).1 in
        (length key ≡ 32)
        × ((generate_iv mb e).0 ≡ success)
        × ((seal_with mb iv plaintext key out aad).0 ≡ success)
        × ((encrypt mb plaintext key out aad e).1 ≡ (seal_with mb iv plaintext key out aad).1)
  unfolding encrypt
  encrypt-eq-success plaintext key out aad e h = elim (Option-cases (ready? mb e)) [
    | inl r ↦ absurd (ground arith)
    | inr (i, r) ↦ ground (arith, is_success_iff (generate_iv mb e).0)
  ]

  seal_with-IsSealed :
      (iv plaintext key out aad : Bytes)
      → length key ≡ 32
      → length iv ≡ 12
      → (seal_with mb iv plaintext key out aad).0 ≡ success
      → IsSealed plaintext key aad (seal_with mb iv plaintext key out aad).1
  unfolding seal_with
  seal_with-IsSealed iv plaintext key out aad k i h =
      elim (Option-cases (mb.gcm_seal key iv aad plaintext)) [
        | inl s ↦ absurd (ground arith)
        | inr ((cipher, tag), s) ↦ record {
          iv = iv;
          cipher = cipher;
          tag = tag;
          key_length = k;
          key_set = ground arith;
          iv_length = i;
          sealed = s;
          output_eq = ground arith;
        }
      ]

  -- If `encrypt` reports success, the key has 32 bytes and the output is an IV of 12 bytes, the
  -- ciphertext and the tag, as the library seals the plaintext under that key, IV and additional
  -- data.
  pub encrypt-IsSealed :
      (plaintext key out aad : Bytes) (e : Encryptor mb)
      → (encrypt mb plaintext key out aad e).0 ≡ success
      → IsSealed plaintext key aad (encrypt mb plaintext key out aad e).1
  encrypt-IsSealed plaintext key out aad e h =
      let (k, g, s, same) = encrypt-eq-success plaintext key out aad e h in
      rw same (seal_with-IsSealed _ plaintext key out aad k (generate_iv-length e g) s)

  pub IsSealed-length :
      (plaintext key aad output : Bytes)
      → IsSealed plaintext key aad output
      → length output ≡ 28 + length plaintext
  IsSealed-length plaintext key aad output s = omega (
    arith,
    ap length s.output_eq,
    length-append {0} s.iv (s.cipher ++ s.tag),
    length-append {0} s.cipher s.tag,
    s.iv_length,
    L.seal_lengths key s.iv aad plaintext s.cipher s.tag s.sealed,
  )

  generate_iv-ready :
      (e : Encryptor mb) → (generate_iv mb e).0 ≡ success → ready? mb (generate_iv mb e).2 ≢ none
  unfolding generate_iv ready?
  generate_iv-ready e h n = ground arith

  -- An encryptor that has encrypted once is ready to go on.
  pub encrypt-ready :
      (plaintext key out aad : Bytes) (e : Encryptor mb)
      → (encrypt mb plaintext key out aad e).0 ≡ success
      → ready? mb (encrypt mb plaintext key out aad e).2 ≢ none
  unfolding encrypt
  encrypt-ready plaintext key out aad e h = elim (Option-cases (ready? mb e)) [
    | inl r ↦ absurd (ground arith)
    | inr (i, r) ↦
        let drawn : (generate_iv mb e).0 ≡ success =
          (encrypt-eq-success plaintext key out aad e h).1 in
        let same : (encrypt mb plaintext key out aad e).2 ≡ (generate_iv mb e).2 =
          ground (arith, is_success_iff (generate_iv mb e).0) in
        rw same (generate_iv-ready e drawn)
  ]

  generate_iv-keeps :
      (e : Encryptor mb) → ready? mb e ≢ none → ready? mb (generate_iv mb e).2 ≢ none
  unfolding generate_iv ready?
  generate_iv-keeps e r n = ground arith

  -- Whatever `encrypt` reports, an encryptor that was ready is ready afterwards.
  pub encrypt-keeps_ready :
      (plaintext key out aad : Bytes) (e : Encryptor mb)
      → ready? mb e ≢ none
      → ready? mb (encrypt mb plaintext key out aad e).2 ≢ none
  unfolding encrypt
  encrypt-keeps_ready plaintext key out aad e r n = ground (arith, r, generate_iv-keeps e r)
