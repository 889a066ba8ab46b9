-- ===== src/Os/Memory/Nodes.antt =====
-- Lookups in the file system in memory, after changes of one entry.
use mathlib.Core.List.{Memᴰ}
use secure_storage.Base.{
  ◌++◌, ◌≡◌, ◌≢◌, refl, sym, ap, ◌∙◌, ◌⊎◌, inl, inr, true, false, Option, none, some, List, [], ◌∷◌,
  arith, Bool-cases,
}
use secure_storage.Base.Text.{
  c_str, IsPlain, c_str-IsPlain, append-IsPlain, has_char, Str, Bytes, str_eq, str_eq_iff,
  append_cancel,
}
use secure_storage.Os.Posix.{Node, file, folder, device, Apart, IsBase, slashed, IsName}
use secure_storage.Os.Memory.{Place, root, inside, elsewhere, place, lookup, del, put, seen, names}

pub str_eq_refl : (s : Str) → str_eq s s ≡ true
str_eq_refl s = (str_eq_iff s s).1 refl

pub str_eq-differ : (s t : Str) → s ≢ t → str_eq s t ≡ false
str_eq-differ s t h = elim (Bool-cases (str_eq s t)) [
  | inl e ↦ absurd (h ((str_eq_iff s t).0 e))
  | inr e ↦ e
]

pub Apart-differ : (p q : Str) → Apart p q → p ≢ q
Apart-differ p q a e =
    a.differ (append_cancel a.base a.left a.right (sym a.left_eq ∙ e ∙ a.right_eq))

entry-IsPlain : (base name : Str) → IsBase base → IsName name → IsPlain (base ++ name)
unfolding has_char
entry-IsPlain _ name (slashed d z) n =
    append-IsPlain (d ++ b'/' ∷ []) name (append-IsPlain d (b'/' ∷ []) z refl) n.plain

-- Two entries of a directory have no NUL byte in their paths.
pub Apart-c_str : (p q : Str) → Apart p q → (c_str p ≡ p) × (c_str q ≡ q)
Apart-c_str p q a = (
  c_str-IsPlain p (rw a.left_eq (entry-IsPlain a.base a.left a.base_is a.left_is)),
  c_str-IsPlain q (rw a.right_eq (entry-IsPlain a.base a.right a.base_is a.right_is)),
)

pub Apart-cut : (p q : Str) → Apart p q → Apart (c_str p) (c_str q)
Apart-cut p q a = let (l, r) = Apart-c_str p q a in rw (l, r) a

pub lookup-del : (name : Str) (l : List (Str × Node)) → lookup name (del name l) ≡ none
unfolding lookup del
lookup-del name [] = refl
lookup-del name ((m, n) ∷ l) = ground (arith, lookup-del name l)

pub lookup-del-differ :
    (name other : Str) (l : List (Str × Node))
    → name ≢ other
    → lookup other (del name l) ≡ lookup other l
unfolding lookup del
lookup-del-differ name other [] h = refl
lookup-del-differ name other ((m, n) ∷ l) h =
    ground (arith, lookup-del-differ name other l, str_eq_iff name m, str_eq_iff other m)

pub lookup-put :
    (name : Str) (n : Node) (l : List (Str × Node)) → lookup name (put name n l) ≡ some n
unfolding lookup
lookup-put name n l = ground (arith, str_eq_refl name)

pub lookup-put-differ :
    (name other : Str) (n : Node) (l : List (Str × Node))
    → name ≢ other
    → lookup other (put name n l) ≡ lookup other l
unfolding lookup
lookup-put-differ name other n l h =
    ground (arith, lookup-del-differ name other l h, str_eq-differ other name (λ e. h (sym e)))

pub place-inside : (p name : Str) → place p ≡ inside name → p ≡ b'/' ∷ name
unfolding place
place-inside [] name h = absurd (cc)
place-inside (c ∷ m) name h = ground arith

pub Place-cases : (x : Place) → (x ≡ root) ⊎ (x ≡ elsewhere) ⊎ ((name : Str) × (x ≡ inside name))
Place-cases root = inl refl
Place-cases elsewhere = inr (inl refl)
Place-cases (inside name) = inr (inr (name, refl))

-- The names of two places that differ.
pub names-differ :
    (p q name other : Str) → p ≢ q → place p ≡ inside name → place q ≡ inside other → name ≢ other
names-differ p q name other h e f same =
    h (place-inside p name e ∙ ap (◌∷◌ b'/') same ∙ sym (place-inside q other f))

pub seen-put :
    (p q name : Str) (n : Node) (l : List (Str × Node))
    → p ≢ q
    → place p ≡ inside name
    → seen (put name n l) (place q) ≡ seen l (place q)
seen-put p q name n l h e = elim (Place-cases (place q)) [
  | inl f ↦ rw f refl
  | inr (inl f) ↦ rw f refl
  | inr (inr (other, f)) ↦
      rw f (lookup-put-differ name other n l (names-differ p q name other h e f))
]

pub seen-del :
    (p q name : Str) (l : List (Str × Node))
    → p ≢ q
    → place p ≡ inside name
    → seen (del name l) (place q) ≡ seen l (place q)
seen-del p q name l h e = elim (Place-cases (place q)) [
  | inl f ↦ rw f refl
  | inr (inl f) ↦ rw f refl
  | inr (inr (other, f)) ↦ rw f (lookup-del-differ name other l (names-differ p q name other h e f))
]

pub Node-cases :
    (n : Option Node)
    → (n ≡ none)
      ⊎ (n ≡ some folder)
      ⊎ (n ≡ some device)
      ⊎ ((bytes : Bytes) × (n ≡ some (file bytes)))
Node-cases none = inl refl
Node-cases (some folder) = inr (inl refl)
Node-cases (some device) = inr (inr (inl refl))
Node-cases (some (file bytes)) = inr (inr (inr (bytes, refl)))

pub lookup-names :
    (name : Str) (l : List (Str × Node)) → IsPlain name → lookup name l ≢ none → Memᴰ name (names l)
unfolding lookup
lookup-names name [] z h = absurd (h refl)
lookup-names name ((m, n) ∷ l) z h = elim (Bool-cases (str_eq name m)) [
  | inl e ↦
      let same = (str_eq_iff name m).0 e in
      let plain : has_char 0 m ≡ false = cc (z, ap (has_char 0) same) in rw plain (Memᴰ.head same)
  | inr e ↦
      let rest = lookup-names name l z (rw e at h) in
      elim (Bool-cases (has_char 0 m)) [ inl k ↦ rw k rest | inr k ↦ rw k (Memᴰ.tail rest) ]
]

pub names-IsPlain : (name : Str) (l : List (Str × Node)) → Memᴰ name (names l) → IsPlain name
names-IsPlain name [] h = elim h [ ]
names-IsPlain name ((m, n) ∷ l) h = elim (Bool-cases (has_char 0 m)) [
  | inl k ↦ names-IsPlain name l (rw k at h)
  | inr k ↦ elim (rw k at h) [
    | Memᴰ.head e ↦ cc (k, ap (has_char 0) e)
    | Memᴰ.tail rest ↦ names-IsPlain name l rest
  ]
]
