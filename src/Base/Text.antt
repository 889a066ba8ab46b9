-- ===== src/Base/Text.antt =====
-- `std::string` and `std::vector<unsigned char>` as lists of byte values.
use Prim.Native.Nat.{ℕ, suc, ◌+◌}
use Prim.Native.Char.{code}
use Prim.Native.String.{String}
use mathlib.Core.Path.{◌≡◌, refl}
use mathlib.Core.Logic.{◌↔◌}
use mathlib.Core.Bool.{Bool, true, false, ◌&&◌, ◌||◌}
use mathlib.Core.List.{List, [], ◌∷◌, ◌++◌}
use native.Mathlib.Omega.{arith}
use mathlib.Core.Option
use mathlib.Core.Option.{Option, none, some}
use secure_storage.Base.Tests.{◌==◌, if◌then◌else◌}
use secure_storage.Base.Lists.{drop}

-- A path, a file name or an id.
abbrev pub Str : Type 0
Str = List ℕ

-- The contents of a file, or a buffer.
abbrev pub Bytes : Type 0
Bytes = List ℕ

-- The bytes of an ASCII literal.
abbrev pub codes : String → Str
codes String.[] = []
codes (String.◌∷◌ c s) = code c ∷ codes s

-- `std::string::empty`
abbrev pub empty : Str → Bool
empty [] = true
empty (c ∷ s) = false

-- `c_str()` as a call of the system reads it: the bytes before the first NUL.
abbrev pub c_str : Str → Str
c_str [] = []
c_str (c ∷ s) = let rest = c_str s in if c == 0 then [] else c ∷ rest

-- `==` of strings.
unfoldable pub str_eq : Str → Str → Bool
str_eq [] [] = true
str_eq [] (d ∷ t) = false
str_eq (c ∷ s) [] = false
str_eq (c ∷ s) (d ∷ t) = c == d && str_eq s t

pub str_eq_iff : (s t : Str) → (str_eq s t ≡ true) ↔ (s ≡ t)
unfolding str_eq
str_eq_iff [] [] = (λ _. refl, λ _. refl)
str_eq_iff [] (d ∷ t) = (λ h. cc, λ h. cc)
str_eq_iff (c ∷ s) [] = (λ h. cc, λ h. cc)
str_eq_iff (c ∷ s) (d ∷ t) = ground (arith, str_eq_iff s t)

-- `s.find(c) != npos`
unfoldable pub has_char : ℕ → Str → Bool
has_char c [] = false
has_char c (d ∷ s) = d == c || has_char c s

pub has_char-append : (c : ℕ) (s t : Str) → has_char c (s ++ t) ≡ (has_char c s || has_char c t)
unfolding has_char
has_char-append c [] t = refl
has_char-append c (d ∷ s) t = ground (arith, has_char-append c s t)

-- A text with no NUL byte.
abbrev pub IsPlain : Str → Type 0
IsPlain s = has_char 0 s ≡ false

pub c_str-IsPlain : (s : Str) → IsPlain s → c_str s ≡ s
unfolding has_char
c_str-IsPlain [] h = refl
c_str-IsPlain (c ∷ s) h = ground (arith, c_str-IsPlain s)

pub append-IsPlain : (s t : Str) → IsPlain s → IsPlain t → IsPlain (s ++ t)
append-IsPlain s t p q = rw (has_char-append, p) q

pub append_cancel : (d a b : Str) → d ++ a ≡ d ++ b → a ≡ b
append_cancel [] a b h = h
append_cancel (c ∷ d) a b h = append_cancel d a b (cc)

-- The index of the first `c`, as `s.find(c)`; `none` is `npos`.
unfoldable pub find : ℕ → Str → Option ℕ
find c [] = none
find c (d ∷ s) = let rest = find c s in if d == c then some 0 else Option.map suc rest

-- `s.find(c, pos)`
unfoldable pub find_from : ℕ → Str → ℕ → Option ℕ
unfolding find
find_from c s pos = Option.map (λ k. pos + k) (find c (drop pos s))

-- The index of the last character that passes the test, as `find_last_of`.
unfoldable pub find_last : (ℕ → Bool) → Str → Option ℕ
find_last p [] = none
find_last p (c ∷ s) = elim (find_last p s) [
  | some k ↦ some (suc k)
  | none ↦ if p c then some 0 else none
]

-- Whether `back()` is there and passes the test.
unfoldable pub back_is : (ℕ → Bool) → Str → Bool
back_is p [] = false
back_is p (c ∷ []) = p c
back_is p (c ∷ d ∷ s) = back_is p (d ∷ s)

-- `pop_back`
unfoldable pub pop_back : Str → Str
pop_back [] = []
pop_back (c ∷ []) = []
pop_back (c ∷ d ∷ s) = c ∷ pop_back (d ∷ s)

-- Whether the text begins with this character.
unfoldable pub front_is : ℕ → Str → Bool
front_is c [] = false
front_is c (d ∷ s) = d == c

abbrev pub is_slash : ℕ → Bool
is_slash c = c == b'/'

-- `/` or `\`
abbrev pub is_separator : ℕ → Bool
is_separator c = c == b'/' || c == 0x5c

pub back_is-append :
    (p : ℕ → Bool) (s t : Str) (c : ℕ) → back_is p (s ++ (c ∷ t)) ≡ back_is p (c ∷ t)
unfolding back_is
back_is-append p [] t c = refl
back_is-append p (d ∷ []) t c = refl
back_is-append p (d ∷ e ∷ s) t c = back_is-append p (e ∷ s) t c
