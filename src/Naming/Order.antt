-- ===== src/Naming/Order.antt =====
-- The `std::sort` of the ids: a permutation in ascending order.
use mathlib.Core.List.{Memᴰ, Permᴰ}
use secure_storage.Base.{
  ◌≡◌, refl, sym, ◌∙◌, inl, inr, ◌↔◌, true, false, List, [], ◌∷◌, arith, Bool-cases,
}
use secure_storage.Base.Text.{Str}
use secure_storage.Naming.{str_lt, insert, sort}

-- No element is below the one before it.
abbrev pub IsAscending : List Str → Type 0
IsAscending [] = Unit
IsAscending (x ∷ []) = Unit
IsAscending (x ∷ y ∷ l) = (str_lt y x ≡ false) × IsAscending (y ∷ l)

str_lt-asymm : (x y : Str) → str_lt x y ≡ true → str_lt y x ≡ false
unfolding str_lt
str_lt-asymm [] [] h = refl
str_lt-asymm [] (d ∷ t) h = refl
str_lt-asymm (c ∷ s) [] h = absurd (cc)
str_lt-asymm (c ∷ s) (d ∷ t) h = ground (arith, str_lt-asymm s t)

Permᴰ-refl {ℓ} : {A : Type ℓ} (l : List A) → Permᴰ l l
Permᴰ-refl [] = Permᴰ.nil
Permᴰ-refl (x ∷ l) = Permᴰ.cons refl (Permᴰ-refl l)

Permᴰ-symm {ℓ} : {A : Type ℓ} {l m : List A} → Permᴰ l m → Permᴰ m l
Permᴰ-symm Permᴰ.nil = Permᴰ.nil
Permᴰ-symm (Permᴰ.cons e p) = Permᴰ.cons (sym e) (Permᴰ-symm p)
Permᴰ-symm (Permᴰ.swap e f) = Permᴰ.swap (sym f) (sym e)
Permᴰ-symm (Permᴰ.trans p q) = Permᴰ.trans (Permᴰ-symm q) (Permᴰ-symm p)

insert-perm : (x : Str) (l : List Str) → Permᴰ (insert x l) (x ∷ l)
unfolding insert
insert-perm x [] = Permᴰ-refl _
insert-perm x (y ∷ l) = elim (Bool-cases (str_lt y x)) [
  | inl e ↦ rw (e, insert) (Permᴰ.trans (Permᴰ.cons refl (insert-perm x l)) (Permᴰ.swap refl refl))
  | inr e ↦ rw (e, insert) (Permᴰ-refl _)
]

-- The sorted ids are a permutation of the ids.
pub sort-perm : (l : List Str) → Permᴰ (sort l) l
unfolding sort
sort-perm [] = Permᴰ.nil
sort-perm (x ∷ l) = Permᴰ.trans (insert-perm x (sort l)) (Permᴰ.cons refl (sort-perm l))

insert-IsAscending : (x : Str) (l : List Str) → IsAscending l → IsAscending (insert x l)
unfolding insert
insert-IsAscending x [] h = tt
insert-IsAscending x (y ∷ []) h = ground (arith, str_lt-asymm y x)
insert-IsAscending x (y ∷ z ∷ l) h =
    ground (arith, str_lt-asymm y x, insert-IsAscending x (z ∷ l) h.1)

-- The sorted ids are in ascending order.
pub sort-IsAscending : (l : List Str) → IsAscending (sort l)
unfolding sort
sort-IsAscending [] = tt
sort-IsAscending (x ∷ l) = insert-IsAscending x (sort l) (sort-IsAscending l)

Permᴰ-mem {ℓ} : {A : Type ℓ} {a : A} {l m : List A} → Permᴰ l m → Memᴰ a l → Memᴰ a m
Permᴰ-mem Permᴰ.nil h = h
Permᴰ-mem (Permᴰ.cons e p) (Memᴰ.head h) = Memᴰ.head (h ∙ e)
Permᴰ-mem (Permᴰ.cons e p) (Memᴰ.tail h) = Memᴰ.tail (Permᴰ-mem p h)
Permᴰ-mem (Permᴰ.swap e f) (Memᴰ.head h) = Memᴰ.tail (Memᴰ.head (h ∙ e))
Permᴰ-mem (Permᴰ.swap e f) (Memᴰ.tail (Memᴰ.head h)) = Memᴰ.head (h ∙ f)
Permᴰ-mem (Permᴰ.swap e f) (Memᴰ.tail (Memᴰ.tail h)) = Memᴰ.tail (Memᴰ.tail h)
Permᴰ-mem (Permᴰ.trans p q) h = Permᴰ-mem q (Permᴰ-mem p h)

pub sort-mem : (l : List Str) (a : Str) → Memᴰ a (sort l) ↔ Memᴰ a l
sort-mem l a = (Permᴰ-mem (sort-perm l), Permᴰ-mem (Permᴰ-symm (sort-perm l)))
