-- ===== src/Os/Memory/Laws.antt =====
-- The file system in memory behaves as `IsPosix` says.
use mathlib.Core.List.{Memᴰ}
use secure_storage.Base.{
  ℕ, ◌≡◌, ◌≢◌, refl, sym, ap, subst, ◌∙◌, inl, inr, Bool, true, false, Option, none, some, List, [],
  ◌∷◌, ◌++◌, arith, ◌==◌, length, take, take_all, Bool-cases,
}
use secure_storage.Base.Text.{
  c_str, IsPlain, c_str-IsPlain, append-IsPlain, Str, Bytes, empty, has_char, has_char-append,
}
use secure_storage.Os.Posix.{
  IsPosix, IsFaultless, IsBase, slashed, IsName, Node, file, folder, contents?, Apart,
}
use secure_storage.Os.Memory.{
  root, inside, World, place, seen, node, target, opened_at, write_at, is_file, bytes_at,
  removed_at, moved_at, names, listed_at, memory_os,
}
use secure_storage.Os.Memory.Nodes.{
  Apart-differ, Apart-cut, names-IsPlain, lookup-del, lookup-put, lookup-put-differ, place-inside,
  Place-cases, seen-put, seen-del, lookup-names,
}
use secure_storage.Os.Memory.Calls.{
  moved, mkdir-other, mkdir-folder, mkdir-new, opened_at-cases, write_at-cases, removed_at-cases,
  moved_at-cases, moved-to, moved-from, moved-other,
}

pub parent_lem :
    (w : World) (d name : Str)
    → IsName name
    → node w (d ++ b'/' ∷ name) ≢ none
    → (node w (d ++ b'/' ∷ []) ≡ some folder) × (d ≢ [] → node w d ≡ some folder)
unfolding place has_char
parent_lem w [] name n h = (refl, λ k. absurd (k refl))
parent_lem w (c ∷ d) name n h = absurd (h (nothing d name))
  where
    long : (d name : Str) → empty (d ++ b'/' ∷ name) ≡ false
    long [] name = refl
    long (c ∷ d) name = refl

    nothing : (d name : Str) → node w (c ∷ (d ++ b'/' ∷ name)) ≡ none
    nothing d name = elim (Bool-cases (c == b'/')) [
      | inr e ↦ rw e refl
      | inl e ↦ rw (e, long d name, has_char-append b'/' d (b'/' ∷ name)) (ground arith)
    ]

pub open-empty :
    (w : World) (p : Str) (fd : ℕ)
    → (opened_at w (place p)).0 ≡ some fd
    → (node (opened_at w (place p)).1 p ≡ some (file []))
      × (target (opened_at w (place p)).1 fd ≡ some p)
open-empty w p fd h = elim (opened_at-cases w p) [
  | inl e ↦ absurd (cc (h, ap (λ (r : Option ℕ × World). r.0) e))
  | inr (name, e, same) ↦
      let three : 3 ≡ fd = cc (h, ap (λ (r : Option ℕ × World). r.0) same) in
      rw (same, ← three)
        (rw e (lookup-put name (file []) w.nodes), ap some (sym (place-inside p name e)))
]

pub open-other : (w : World) (p q : Str) → Apart p q → node (opened_at w (place p)).1 q ≡ node w q
open-other w p q a = elim (opened_at-cases w p) [
  | inl e ↦ rw e refl
  | inr (name, e, same) ↦ rw same (seen-put p q name (file []) w.nodes (Apart-differ p q a) e)
]

pub open-failed :
    (w : World) (p q : Str)
    → (opened_at w (place p)).0 ≡ none
    → node (opened_at w (place p)).1 q ≡ node w q
open-failed w p q h = elim (opened_at-cases w p) [
  | inl e ↦ rw e refl
  | inr (name, e, same) ↦ absurd (cc (h, ap (λ (r : Option ℕ × World). r.0) same))
]

-- The open entry is not the directory: a slash and its name lead to it.
lookup-node :
    (w : World) (p name : Str) (bytes : Bytes)
    → p ≡ b'/' ∷ name
    → node w p ≡ some (file bytes)
    → place p ≡ inside name
lookup-node w p name bytes e h = elim (Place-cases (place p)) [
  | inl r ↦ absurd (cc (h, ap (seen w.nodes) r))
  | inr (inl r) ↦ absurd (cc (h, ap (seen w.nodes) r))
  | inr (inr (other, r)) ↦
      let same : name ≡ other = cc (e, place-inside p other r) in r ∙ ap inside (sym same)
]

pub write-empty :
    (w : World) (fd : ℕ) (p : Str) (data' : Bytes) (n : ℕ)
    → target w fd ≡ some p
    → node w p ≡ some (file [])
    → (write_at w fd data').0 ≡ some n
    → node (write_at w fd data').1 p ≡ some (file (take n data'))
write-empty w fd p data' n t h c = elim (write_at-cases w fd data') [
  | inl e ↦ absurd (cc (c, ap (λ (r : Option ℕ × World). r.0) e))
  | inr (name, bytes, t', f, same) ↦
      let path : p ≡ b'/' ∷ name = cc (t, t') in
      let here = lookup-node w p name [] path h in
      let was : bytes ≡ [] = cc (h, f, ap (seen w.nodes) here) in
      let count : length data' ≡ n = cc (c, ap (λ (r : Option ℕ × World). r.0) same) in
      rw (same, here, was, take_all n data' (omega (arith, count)))
        (lookup-put name (file data') w.nodes)
]

pub write-target :
    (w : World) (fd : ℕ) (data' : Bytes) → target (write_at w fd data').1 fd ≡ target w fd
write-target w fd data' = elim (write_at-cases w fd data') [
  | inl e ↦ rw e refl
  | inr (name, bytes, t', f, same) ↦ rw same refl
]

pub write-other :
    (w : World) (fd : ℕ) (p q : Str) (data' : Bytes)
    → target w fd ≡ some p
    → Apart p q
    → node (write_at w fd data').1 q ≡ node w q
write-other w fd p q data' t a = elim (write_at-cases w fd data') [
  | inl e ↦ rw e refl
  | inr (name, bytes, t', f, same) ↦
      let path : p ≡ b'/' ∷ name = cc (t, t') in
      rw same (elim (Place-cases (place q)) [
        | inl r ↦ rw r refl
        | inr (inl r) ↦ rw r refl
        | inr (inr (other, r)) ↦ rw r (
            lookup-put-differ name other (file (bytes ++ data')) w.nodes
              (λ k. Apart-differ p q a (path ∙ ap (◌∷◌ b'/') k ∙ sym (place-inside q other r))))
      ])
]

pub remove-gone :
    (w : World) (p : Str)
    → (removed_at w (place p)).0 ≡ true
    → node (removed_at w (place p)).1 p ≡ none
remove-gone w p h = elim (removed_at-cases w p) [
  | inl e ↦ absurd (cc (h, ap (λ (r : Bool × World). r.0) e))
  | inr (name, e, same) ↦ rw (same, e) (lookup-del name w.nodes)
]

pub remove-other :
    (w : World) (p q : Str) → Apart p q → node (removed_at w (place p)).1 q ≡ node w q
remove-other w p q a = elim (removed_at-cases w p) [
  | inl e ↦ rw e refl
  | inr (name, e, same) ↦ rw same (seen-del p q name w.nodes (Apart-differ p q a) e)
]

pub remove-failed :
    (w : World) (p q : Str)
    → (removed_at w (place p)).0 ≡ false
    → node (removed_at w (place p)).1 q ≡ node w q
remove-failed w p q h = elim (removed_at-cases w p) [
  | inl e ↦ rw e refl
  | inr (name, e, same) ↦ absurd (cc (h, ap (λ (r : Bool × World). r.0) same))
]

pub rename-done :
    (w : World) (p q : Str)
    → Apart p q
    → (moved_at w (place p) (place q)).0 ≡ true
    → (node (moved_at w (place p) (place q)).1 q ≡ node w p)
      × (node (moved_at w (place p) (place q)).1 p ≡ none)
rename-done w p q a h = elim (moved_at-cases w p q) [
  | inl e ↦ absurd (cc (h, ap (λ (r : Bool × World). r.0) e))
  | inr (name, name', bytes, e, f, g, same) ↦ rw same (
    moved-to w q name name' bytes f ∙ sym (ap (seen w.nodes) e ∙ g),
    moved-from w p q name name' bytes (Apart-differ p q a) e f,
  )
]

pub rename-itself :
    (w : World) (p q : Str)
    → p ≡ q
    → (moved_at w (place p) (place q)).0 ≡ true
    → (node w p ≢ none) × (node (moved_at w (place p) (place q)).1 p ≡ node w p)
rename-itself w p q k h = elim (moved_at-cases w p q) [
  | inl e ↦ absurd (cc (h, ap (λ (r : Bool × World). r.0) e))
  | inr (name, name', bytes, e, f, g, same) ↦
      let there : node w p ≡ some (file bytes) = ap (seen w.nodes) e ∙ g in
      rw same (
        λ n. cc (n, there),
        ap (λ t. node (moved w name name' bytes) t) k ∙ moved-to w q name name' bytes f ∙ sym there,
      )
]

pub rename-other :
    (w : World) (p q r : Str)
    → Apart p r
    → Apart q r
    → node (moved_at w (place p) (place q)).1 r ≡ node w r
rename-other w p q r a b = elim (moved_at-cases w p q) [
  | inl e ↦ rw e refl
  | inr (name, name', bytes, e, f, g, same) ↦
      rw same (moved-other w p q r name name' bytes (Apart-differ p r a) (Apart-differ q r b) e f)
]

pub rename-failed :
    (w : World) (p q r : Str)
    → (moved_at w (place p) (place q)).0 ≡ false
    → node (moved_at w (place p) (place q)).1 r ≡ node w r
rename-failed w p q r h = elim (moved_at-cases w p q) [
  | inl e ↦ rw e refl
  | inr (name, name', bytes, e, f, g, same) ↦ absurd (cc (h, ap (λ (r : Bool × World). r.0) same))
]

pub is_file-some : (n : Option Node) → is_file n ≡ true → n ≢ none
is_file-some n h k = cc (h, ap is_file k)

slash-root : (base : Str) → IsBase base → place base ≡ root → base ≡ b'/' ∷ []
unfolding place
slash-root base b h = ground arith

place-name : (name : Str) → IsName name → place (b'/' ∷ name) ≡ inside name
unfolding place
place-name [] n = absurd (n.not_empty refl)
place-name (c ∷ name) n = rw n.no_slash refl

pub listed-names :
    (w : World) (base : Str) (files : List Str)
    → listed_at w (place base) ≡ some files
    → (place base ≡ root) × (names w.nodes ≡ files)
listed-names w base files h = elim (Place-cases (place base)) [
  | inr (inl e) ↦ absurd (cc (h, ap (listed_at w) e))
  | inr (inr (other, e)) ↦ absurd (cc (h, ap (listed_at w) e))
  | inl e ↦ (e, cc (h, ap (listed_at w) e))
]

-- The path as the calls read it.
abbrev pub node_at : World → Str → Option Node
node_at w p = node w (c_str p)

cut-append : (d s : Str) → IsPlain d → c_str (d ++ s) ≡ d ++ c_str s
unfolding has_char
cut-append [] s h = refl
cut-append (c ∷ d) s h = ground (arith, cut-append d s)

pub parent_at :
    (w : World) (d name : Str)
    → IsPlain d
    → IsName name
    → node_at w (d ++ b'/' ∷ name) ≢ none
    → (node_at w (d ++ b'/' ∷ []) ≡ some folder) × (d ≢ [] → node_at w d ≡ some folder)
parent_at w d name z n =
    rw
      (
        cut-append d (b'/' ∷ name) z,
        cut-append d (b'/' ∷ []) z,
        c_str-IsPlain d z,
        c_str-IsPlain name n.plain,
      )
      (parent_lem w d name n)

base-IsPlain : (base : Str) → IsBase base → IsPlain base
unfolding has_char
base-IsPlain _ (slashed d z) = append-IsPlain d (b'/' ∷ []) z refl

pub list-names :
    (w : World) (base : Str) (files : List Str)
    → IsBase base
    → listed_at w (place (c_str base)) ≡ some files
    → (name : Str) → IsName name
    → node_at w (base ++ name) ≢ none
    → Memᴰ name files
list-names w base files b h name n there =
    let plain = base-IsPlain base b in
    let same = c_str-IsPlain base plain in
    let (r, listed) = listed-names w (c_str base) files h in
    let is_root : place base ≡ root = ap place (sym same) ∙ r in
    rw (← listed) (
      lookup-names name w.nodes n.plain (λ e. there (
        rw
          (
            cut-append base name plain,
            c_str-IsPlain name n.plain,
            slash-root base b is_root,
            place-name name n,
          )
          e)))

unfoldable pub memory-IsPosix : IsPosix memory_os
memory-IsPosix = record {
  node = node_at;
  target = target;
  node_same = λ w p q e. ap (λ t. node w t) e;
  stat_lem = λ w p. refl;
  parent = parent_at;
  mkdir_contents = λ w p q. elim (mkdir-new w (c_str p) (c_str q)) [
    | inl e ↦ ap contents? e
    | inr (e, f) ↦ ap contents? e ∙ sym (ap contents? f)
  ];
  mkdir_keeps = λ w p q. mkdir-other w (c_str p) (c_str q);
  mkdir_made = λ w p. mkdir-folder w (c_str p);
  mkdir_device = λ w p q h. elim (mkdir-new w (c_str p) (c_str q)) [
    | inl e ↦ λ k. h (sym e ∙ k)
    | inr (e, f) ↦ λ k. cc (e, k)
  ];
  opened_empty = λ w p fd h e. (open-empty w (c_str p) fd e).0;
  opened_target = λ w p fd e. (open-empty w (c_str p) fd e).1;
  open_others = λ w p q a. open-other w (c_str p) (c_str q) (Apart-cut p q a);
  open_failed = λ w p q. open-failed w (c_str p) (c_str q);
  written = λ w fd p. write-empty w fd (c_str p);
  write_target = write-target;
  write_others =
      λ w fd p q data' t a. write-other w fd (c_str p) (c_str q) data' t (Apart-cut p q a);
  fsync_node = λ w fd q. refl;
  close_node = λ w fd q. refl;
  open_directory_node = λ w p q. refl;
  removed = λ w p. remove-gone w (c_str p);
  remove_others = λ w p q a. remove-other w (c_str p) (c_str q) (Apart-cut p q a);
  remove_failed = λ w p q. remove-failed w (c_str p) (c_str q);
  renamed_to = λ w p q a h. (rename-done w (c_str p) (c_str q) (Apart-cut p q a) h).0;
  renamed_from = λ w p q a h. (rename-done w (c_str p) (c_str q) (Apart-cut p q a) h).1;
  rename_others = λ w p q r a b.
      rename-other w (c_str p) (c_str q) (c_str r) (Apart-cut p r a) (Apart-cut q r b);
  rename_failed = λ w p q r. rename-failed w (c_str p) (c_str q) (c_str r);
  rename_same = λ w p q e. rename-itself w (c_str p) (c_str q) e;
  open_stream = λ w p h. is_file-some (node_at w p) h;
  size_of = λ w p bytes n e h. cc (h, ap bytes_at e);
  bytes_of = λ w p bytes n e l h. ap (λ b. take n (bytes_at b)) e;
  reads_all = λ w base. true;
  entries_plain = λ w base files h name is_in.
      names-IsPlain name w.nodes
        (subst (λ l. Memᴰ name l) (sym (listed-names w (c_str base) files h).1) is_in);
  entries_of = λ w base files b _ h. list-names w base files b h;
}

-- Reading in it does not fail.
pub memory-IsFaultless : IsFaultless memory-IsPosix
unfolding place memory-IsPosix
memory-IsFaultless = record {
  streams = λ w p bytes e. ap is_file e;
  tells = λ w p bytes e. ap (λ n. some (length (bytes_at n))) e;
  reads = λ w p n bytes e l. refl;
}
