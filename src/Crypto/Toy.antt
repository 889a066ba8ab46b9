-- ===== src/Crypto/Toy.antt =====
-- A cipher for the tests, with the lengths and the laws that the sources rely on and no secrecy: the
-- ciphertext is the plaintext, and the tag is sixteen zeros.
use secure_storage.Base.{
  ℕ, suc, ◌≡◌, refl, sym, ap, ◌∙◌, inl, inr, true, Option, some, ◌++◌, arith, Bool-cases, length,
  take, replicate, length-append, length-replicate, length-take, ◌==◌, if◌then◌else◌,
}
use secure_storage.Base.Text.{Bytes, str_eq, str_eq_iff}
use secure_storage.Crypto.{Mbedtls, IsLawful, Opened, opened, auth_failed}

abbrev pub zeros : Bytes
zeros = replicate 16 0

abbrev pub sealed : Bytes → Bytes → Option (Bytes × Bytes)
sealed cipher tag = some (cipher, tag)

abbrev pub open_toy : Bytes → Bytes → Opened
open_toy tag cipher = if str_eq tag zeros then opened cipher else auth_failed

-- The material, cut or filled up to the length.
unfoldable pub stretch : Bytes → ℕ → Bytes
stretch material n = take n (material ++ replicate n 0)

abbrev pub toy : Mbedtls
toy = record {
  Rng = ℕ;
  seed = λ r text. (true, r);
  random = λ r n. (some (replicate n r), suc r);
  gcm_setkey = λ key. length key == 32;
  gcm_seal = λ key iv aad plain. sealed plain zeros;
  gcm_open = λ key iv aad tag cipher. open_toy tag cipher;
  has_sha256 = true;
  hkdf = λ salt ikm info n. some (stretch ikm n);
}

length-stretch : (material : Bytes) (n : ℕ) → length (stretch material n) ≡ n
unfolding stretch
length-stretch material n =
    length-take n (material ++ replicate n 0)
      (omega (arith, length-append {0} material (replicate n 0), length-replicate {A = ℕ} n 0))

open_toy-zeros : (cipher : Bytes) → open_toy zeros cipher ≡ opened cipher
open_toy-zeros cipher = rw ((str_eq_iff zeros zeros).1 refl) refl

open_toy-opened :
    (tag cipher plain : Bytes)
    → open_toy tag cipher ≡ opened plain
    → sealed plain zeros ≡ sealed cipher tag
open_toy-opened tag cipher plain h = elim (Bool-cases (str_eq tag zeros)) [
  | inr e ↦ absurd (cc (rw e at h))
  | inl e ↦ cc ((str_eq_iff tag zeros).0 e, rw e at h)
]

sealed_parts :
    (plain cipher tag : Bytes)
    → sealed plain zeros ≡ sealed cipher tag
    → (plain ≡ cipher) × (zeros ≡ tag)
sealed_parts plain cipher tag h = (cc h, cc h)

pub toy-IsLawful : IsLawful toy
toy-IsLawful = record {
  random_length = λ r n bytes h.
      let e : replicate n r ≡ bytes = cc h in sym (ap length e) ∙ length-replicate n r;
  seal_lengths = λ key iv aad plain cipher tag h.
      let (e, f) = sealed_parts plain cipher tag h in (ap length (sym e), ap length (sym f));
  open_sealed = λ key iv aad plain cipher tag h.
      let (e, f) = sealed_parts plain cipher tag h in rw (← e, ← f) (open_toy-zeros plain);
  sealed_opened = λ key iv aad plain cipher tag h. open_toy-opened tag cipher plain h;
  hkdf_length = λ salt ikm info n key h.
      let e : stretch ikm n ≡ key = cc h in sym (ap length e) ∙ length-stretch ikm n;
}
