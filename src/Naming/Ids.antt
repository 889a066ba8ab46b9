-- ===== src/Naming/Ids.antt =====
-- Which data ids `SecureStore::validateDataId` accepts.
use mathlib.Core.List.{Memᴰ}
use secure_storage.Base.{
  ℕ, ◌≡◌, ◌≢◌, ◌↔◌, refl, sym, ap, ◌⊎◌, inl, inr, Bool, true, false, ◌&&◌, [], ◌∷◌, ◌++◌, arith,
  ◌==◌, ==_iff, Bool-cases,
}
use secure_storage.Base.Text.{Str, empty, has_char}
use secure_storage.Error.{success, invalid_argument}
use secure_storage.Naming.{has_dots, validate_data_id}

-- Two dots in a row, somewhere in the text.
pub record HasDots (s : Str) : Type 0 where
  pub before : Str
  pub after : Str
  pub split : s ≡ before ++ (b'.' ∷ b'.' ∷ after)

pub record IsId (data_id : Str) : Type 0 where
  pub not_empty : data_id ≢ []
  pub no_slash : ¬ Memᴰ b'/' data_id
  pub no_backslash : ¬ Memᴰ 0x5c data_id
  pub no_dots : ¬ HasDots data_id

has_char-mem : (c : ℕ) (s : Str) → has_char c s ≡ true → Memᴰ c s
unfolding has_char
has_char-mem c [] h = absurd (cc)
has_char-mem c (d ∷ s) h = elim (Bool-cases (d == c)) [
  | inl e ↦ Memᴰ.head (sym ((==_iff d c).0 e))
  | inr e ↦ Memᴰ.tail (has_char-mem c s (ground arith))
]

mem-has_char : (c : ℕ) (s : Str) → Memᴰ c s → has_char c s ≡ true
unfolding has_char
mem-has_char c [] m = elim m [ ]
mem-has_char c (d ∷ s) (Memᴰ.head e) = ground arith
mem-has_char c (d ∷ s) (Memᴰ.tail m) = ground (arith, mem-has_char c s m)

has_dots-HasDots : (s : Str) → has_dots s ≡ true → HasDots s
unfolding has_dots
has_dots-HasDots [] h = absurd (cc)
has_dots-HasDots (c ∷ []) h = absurd (cc)
has_dots-HasDots (c ∷ d ∷ s) h = elim (Bool-cases (c == b'.' && d == b'.')) [
  | inl e ↦ record { before = []; after = s; split = ground arith }
  | inr e ↦
      let rest = has_dots-HasDots (d ∷ s) (ground arith) in
      record { before = c ∷ rest.before; after = rest.after; split = ap (◌∷◌ c) rest.split }
]

has_dots-append : (a b : Str) → has_dots (a ++ (b'.' ∷ b'.' ∷ b)) ≡ true
unfolding has_dots
has_dots-append [] b = refl
has_dots-append (c ∷ []) b = ground arith
has_dots-append (c ∷ d ∷ a) b = ground (arith, has_dots-append (d ∷ a) b)

HasDots-has_dots : (s : Str) → HasDots s → has_dots s ≡ true
HasDots-has_dots s h = rw h.split (has_dots-append h.before h.after)

not-true : (b : Bool) → ¬ (b ≡ true) → b ≡ false
not-true b h = ground arith

-- The three searches of an accepted id find nothing.
pub validate_data_id-searches :
    (s : Str)
    → validate_data_id s ≡ success
    → (empty s ≡ false)
      × (has_char b'/' s ≡ false)
      × (has_char 0x5c s ≡ false)
      × (has_dots s ≡ false)
unfolding validate_data_id
validate_data_id-searches s h = ground arith

pub searches-validate_data_id :
    (s : Str)
    → empty s ≡ false
    → has_char b'/' s ≡ false
    → has_char 0x5c s ≡ false
    → has_dots s ≡ false
    → validate_data_id s ≡ success
unfolding validate_data_id
searches-validate_data_id s e a b d = ground arith

empty-false : (s : Str) → s ≢ [] → empty s ≡ false
empty-false [] h = absurd (h refl)
empty-false (c ∷ s) h = refl

-- `validateDataId` accepts exactly the ids that are not empty and have no slash, no backslash and
-- no two dots in a row, and it reports an invalid argument for all others.
pub validate_data_id_iff :
    (s : Str)
    → ((validate_data_id s ≡ success) ↔ IsId s)
      × ((validate_data_id s ≡ success) ⊎ (validate_data_id s ≡ invalid_argument))
validate_data_id_iff s = ((accepted, accepts), unfold validate_data_id in ground arith)
  where
    accepted : validate_data_id s ≡ success → IsId s
    accepted h =
        let (e, a, b, d) = validate_data_id-searches s h in
        record {
          not_empty = λ n. cc (e, ap empty n);
          no_slash = λ m. cc (a, mem-has_char b'/' s m);
          no_backslash = λ m. cc (b, mem-has_char 0x5c s m);
          no_dots = λ m. cc (d, HasDots-has_dots s m);
        }

    accepts : IsId s → validate_data_id s ≡ success
    accepts i =
        searches-validate_data_id s (empty-false s i.not_empty)
          (not-true _ (λ h. i.no_slash (has_char-mem b'/' s h)))
          (not-true _ (λ h. i.no_backslash (has_char-mem 0x5c s h)))
          (not-true _ (λ h. i.no_dots (has_dots-HasDots s h)))
