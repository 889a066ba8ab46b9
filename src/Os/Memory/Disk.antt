-- ===== src/Os/Memory/Disk.antt =====
-- The disk of the file system in memory: what it has when the power is lost.
use secure_storage.Base.{
  ℕ, ◌≡◌, ◌≢◌, refl, sym, ap, ◌∙◌, inl, inr, Bool, true, false, Option, none, some, ◌∷◌, Bool-cases,
}
use secure_storage.Base.Text.{c_str, Str, Bytes, str_eq, str_eq_iff}
use secure_storage.Os.Posix.{Apart, file}
use secure_storage.Os.Memory.{
  inside, World, place, lookup, put, seen, target, opened_at, write_at, removed_at, moved_mark,
  moved_at,
}
use secure_storage.Os.Memory.Nodes.{
  Apart-differ, Apart-cut, place-inside, Place-cases, lookup-put-differ,
}
use secure_storage.Os.Memory.Calls.{
  opened_at-cases, write_at-cases, removed_at-cases, moved_at-cases,
}
use secure_storage.Os.Memory.Laws.{memory-IsPosix}
use secure_storage.Os.Durable.{Keeps, Latest, IsDurable}

-- The contents at a path, as a call reads it, are on the disk.
abbrev pub Free : World → Str → Type 0
Free w r = (name : Str) → w.unsynced ≡ some name → place r ≢ inside name

abbrev pub Settled : World → Str → Type 0
Settled w r = Free w (c_str r)

-- The disk has the directory as it is, and the file that was not synced with some contents, or none.
abbrev pub Lossy : World → World → Type 0
Lossy = Latest memory-IsPosix (λ v v'. Unit) Settled

abbrev pub Always : World → Str → Type 0
Always w r = Unit

pub keeps :
    (w w1 : World) (A B : Str → Type 0)
    → ((r : Str) → B r → Settled w r → Settled w1 r)
    → Keeps memory-IsPosix Lossy Settled w w1 A B
keeps w w1 A B still = record { loss = λ w' l. inr l; synced = still }

inside-same : (p r name : Str) → place p ≡ inside name → place r ≡ inside name → p ≡ r
inside-same p r name e f = place-inside p name e ∙ sym (place-inside r name f)

pub open-Free : (w : World) (p r : Str) → Apart p r → Free w r → Free (opened_at w (place p)).1 r
open-Free w p r a s = elim (opened_at-cases w p) [
  | inl e ↦ rw e s
  | inr (name, e, same) ↦ rw same (λ m k f. Apart-differ p r a (inside-same p r m (cc (e, k)) f))
]

pub write-Free :
    (w : World) (fd : ℕ) (p r : Str) (data' : Bytes)
    → target w fd ≡ some p
    → Apart p r
    → Free w r
    → Free (write_at w fd data').1 r
write-Free w fd p r data' t a s = elim (write_at-cases w fd data') [
  | inl e ↦ rw e s
  | inr (name, bytes, t', f, same) ↦ rw same (λ m k g.
      let path : p ≡ b'/' ∷ name = cc (t, t') in
      let same_name : name ≡ m = cc k in
      Apart-differ p r a (path ∙ ap (◌∷◌ b'/') same_name ∙ sym (place-inside r m g)))
]

-- A mark that a move leaves is at the new name, and was at the old one.
moved_mark-cases :
    (name name' m : Str) (u : Option Str)
    → moved_mark name name' u ≡ some m
    → (u ≡ some name) × (name' ≡ m)
moved_mark-cases name name' m none k = cc k
moved_mark-cases name name' m (some other) k = elim (Bool-cases (str_eq name other)) [
  | inl e ↦ (ap some (sym ((str_eq_iff name other).0 e)), cc (k, e))
  | inr e ↦ absurd (cc (k, e))
]

pub rename-Free :
    (w : World) (p q r : Str) → Apart q r → Free w r → Free (moved_at w (place p) (place q)).1 r
rename-Free w p q r b s = elim (moved_at-cases w p q) [
  | inl e ↦ rw e s
  | inr (name, name', bytes, e, f, g, same) ↦ rw same (λ m k h.
      let there = (moved_mark-cases name name' m w.unsynced k).1 in
      Apart-differ q r b (inside-same q r m (f ∙ ap inside there) h))
]

pub rename-done :
    (w : World) (p q : Str)
    → (moved_at w (place p) (place q)).0 ≡ true
    → Free w p
    → Free (moved_at w (place p) (place q)).1 q
rename-done w p q h s = elim (moved_at-cases w p q) [
  | inl e ↦ absurd (cc (h, ap (λ (r : Bool × World). r.0) e))
  | inr (name, name', bytes, e, f, g, same) ↦
      rw same (λ m k _. s name (moved_mark-cases name name' m w.unsynced k).0 e)
]

-- A call that fails leaves the disk as it is.
pub rename-undone :
    (w : World) (p q r : Str)
    → (moved_at w (place p) (place q)).0 ≡ false
    → Free w r
    → Free (moved_at w (place p) (place q)).1 r
rename-undone w p q r h s = elim (moved_at-cases w p q) [
  | inl e ↦ rw e s
  | inr (name, name', bytes, e, f, g, same) ↦ absurd (cc (h, ap (λ (r : Bool × World). r.0) same))
]

pub remove-Free : (w : World) (p r : Str) → Free w r → Free (removed_at w (place p)).1 r
remove-Free w p r s = elim (removed_at-cases w p) [
  | inl e ↦ rw e s
  | inr (name, e, same) ↦ rw same s
]

-- Any contents of the file that was not synced are possible.
pub contents-Lossy :
    (w : World) (name : Str) (bytes : Bytes)
    → w.unsynced ≡ some name
    → lookup name w.nodes ≢ none
    → Lossy w (record w { nodes = put name (file bytes) w.nodes })
unfolding memory-IsPosix
contents-Lossy w name bytes u h r = elim (Place-cases (place (c_str r))) [
  | inl e ↦ rw e (λ k. k, λ _. refl)
  | inr (inl e) ↦ rw e (λ k. k, λ _. refl)
  | inr (inr (other, e)) ↦ elim (Bool-cases (str_eq name other)) [
    | inl k ↦
        let same = (str_eq_iff name other).0 k in
        (
          λ gone. absurd (h (ap (λ n. lookup n w.nodes) same ∙ sym (ap (seen w.nodes) e) ∙ gone)),
          λ s. absurd (s name u (e ∙ ap inside (sym same))),
        )
    | inr k ↦
        let kept =
          lookup-put-differ name other (file bytes) w.nodes
            (λ same. cc (k, (str_eq_iff name other).1 same)) in
        rw e ((λ gone. kept ∙ gone), λ _. kept)
  ]
]

unfoldable pub memory-IsDurable : IsDurable memory-IsPosix
unfolding memory-IsPosix
memory-IsDurable = record {
  Loss = Lossy;
  Synced = Settled;
  Sole = Always;
  open_keeps = λ w p o. keeps w _ _ _ (λ r a. open-Free w (c_str p) (c_str r) (Apart-cut p r a));
  open_sole = λ w p o. o;
  write_keeps = λ w fd p data' t o.
      keeps w _ _ _ (λ r a. write-Free w fd (c_str p) (c_str r) data' t (Apart-cut p r a));
  fsync_keeps = λ w fd. keeps w _ _ _ (λ r _ _ name e. cc e);
  fsync_synced = λ w fd p t e name k. cc k;
  close_keeps = λ w fd. keeps w _ _ _ (λ r _ s. s);
  open_directory_keeps = λ w p. keeps w _ _ _ (λ r _ s. s);
  remove_keeps = λ w p. keeps w _ _ _ (λ r _. remove-Free w (c_str p) (c_str r));
  remove_sole = λ w p r a o. o;
  remove_failed = λ w p r e. remove-Free w (c_str p) (c_str r);
  rename_keeps = λ w p q.
      keeps w _ _ _ (λ r a. rename-Free w (c_str p) (c_str q) (c_str r) (Apart-cut q r a.1));
  rename_failed = λ w p q r e. rename-undone w (c_str p) (c_str q) (c_str r) e;
  rename_synced = λ w p q a e. rename-done w (c_str p) (c_str q) e;
}
