-- ===== src/Os/Memory/Calls.antt =====
-- What each call of the file system in memory does.
use mathlib.Core.Option
use secure_storage.Base.{
  ℕ, ◌≡◌, ◌≢◌, refl, sym, ap, ◌∙◌, ◌⊎◌, inl, inr, true, false, Option, none, some, ◌∷◌, ◌++◌, ◌==◌,
  length, Bool-cases, Option-cases,
}
use secure_storage.Base.Text.{Str, Bytes, str_eq, str_eq_iff}
use secure_storage.Os.{made}
use secure_storage.Os.Posix.{file, folder}
use secure_storage.Os.Memory.{
  inside, World, place, lookup, del, put, seen, node, target, made_at, opened_at, write_at,
  write_to, is_file, removed_at, moved_mark, moved_at, emptied, is_folder,
}
use secure_storage.Os.Memory.Nodes.{
  lookup-del, lookup-put, Place-cases, seen-put, seen-del, Node-cases,
}

-- A path is the one that a call is about, or another.
pub path-cases : (p q : Str) → (p ≡ q) ⊎ (p ≢ q)
path-cases p q = elim (Bool-cases (str_eq p q)) [
  | inl e ↦ inl ((str_eq_iff p q).0 e)
  | inr e ↦ inr (λ k. cc (e, (str_eq_iff p q).1 k))
]

pub made_at-cases :
    (w : World) (p : Str)
    → let r = made_at w (place p) in
      ((r.1 ≡ w) × (r.0 ≢ made))
      ⊎ ((name : Str) × (place p ≡ inside name)
          × (lookup name w.nodes ≡ none)
          × (r.1 ≡ record w { nodes = put name folder w.nodes }))
made_at-cases w p = elim (Place-cases (place p)) [
  | inl e ↦ rw e (inl (refl, λ k. cc))
  | inr (inl e) ↦ rw e (inl (refl, λ k. cc))
  | inr (inr (name, e)) ↦ rw e (elim (Option-cases (lookup name w.nodes)) [
    | inl f ↦ rw (f, made_at) (inr (name, refl, f, refl))
    | inr (n, f) ↦ rw (f, made_at) (inl (refl, λ k. cc))
  ])
]

pub mkdir-other :
    (w : World) (p q : Str) → node w q ≢ none → node (made_at w (place p)).1 q ≡ node w q
mkdir-other w p q h = elim (made_at-cases w p) [
  | inl (same, _) ↦ rw same refl
  | inr (name, e, f, same) ↦ rw same (
      seen-put p q name folder w.nodes
        (λ k. h (ap (λ t. seen w.nodes (place t)) (sym k) ∙ ap (seen w.nodes) e ∙ f)) e)
]

pub mkdir-folder :
    (w : World) (p : Str)
    → (made_at w (place p)).0 ≡ made
    → node (made_at w (place p)).1 p ≡ some folder
mkdir-folder w p h = elim (made_at-cases w p) [
  | inl (_, n) ↦ absurd (n h)
  | inr (name, e, f, same) ↦ rw (same, e) (lookup-put name folder w.nodes)
]

-- A new directory is the only change.
pub mkdir-new :
    (w : World) (p q : Str)
    → (node (made_at w (place p)).1 q ≡ node w q)
      ⊎ ((node (made_at w (place p)).1 q ≡ some folder) × (node w q ≡ none))
mkdir-new w p q = elim (Node-cases (node w q)) [
  | inr (inl e) ↦ inl (mkdir-other w p q (λ k. cc (e, k)))
  | inr (inr (inl e)) ↦ inl (mkdir-other w p q (λ k. cc (e, k)))
  | inr (inr (inr (bytes, e))) ↦ inl (mkdir-other w p q (λ k. cc (e, k)))
  | inl e ↦ elim (made_at-cases w p) [
    | inl (same, _) ↦ inl (rw same refl)
    | inr (name, f, g, same) ↦ elim (path-cases p q) [
      | inl k ↦ inr (rw (← k, same, f) (lookup-put name folder w.nodes), e)
      | inr k ↦ inl (rw same (seen-put p q name folder w.nodes k f))
    ]
  ]
]

pub opened_at-cases :
    (w : World) (p : Str)
    → let r = opened_at w (place p) in
      (r ≡ (none, w)) ⊎ ((name : Str) × (place p ≡ inside name) × (r ≡ emptied name w))
opened_at-cases w p = elim (Place-cases (place p)) [
  | inl e ↦ rw e (inl refl)
  | inr (inl e) ↦ rw e (inl refl)
  | inr (inr (name, e)) ↦ rw e (elim (Node-cases (lookup name w.nodes)) [
    | inl f ↦ rw (f, opened_at) (inr (name, refl, refl))
    | inr (inl f) ↦ rw (f, opened_at) (inl refl)
    | inr (inr (inl f)) ↦ rw (f, opened_at) (inl refl)
    | inr (inr (inr (bytes, f))) ↦ rw (f, opened_at) (inr (name, refl, refl))
  ])
]

pub write_to-cases :
    (o : Option Str) (w : World) (data' : Bytes)
    → (write_to o w data' ≡ (none, w))
      ⊎ ((name : Str) × (bytes : Bytes) × (o ≡ some name)
          × (lookup name w.nodes ≡ some (file bytes))
          × (write_to o w data' ≡ (
            some (length data'),
            record w { nodes = put name (file (bytes ++ data')) w.nodes; unsynced = some name },
          )))
write_to-cases none w data' = inl refl
write_to-cases (some name) w data' = elim (Node-cases (lookup name w.nodes)) [
  | inl g ↦ rw g (inl refl)
  | inr (inl g) ↦ rw g (inl refl)
  | inr (inr (inl g)) ↦ rw g (inl refl)
  | inr (inr (inr (bytes, g))) ↦ inr (name, bytes, refl, g, rw (g, write_to) refl)
]

pub write_at-cases :
    (w : World) (fd : ℕ) (data' : Bytes)
    → (write_at w fd data' ≡ (none, w))
      ⊎ ((name : Str) × (bytes : Bytes) × (target w fd ≡ some (b'/' ∷ name))
          × (lookup name w.nodes ≡ some (file bytes))
          × (write_at w fd data' ≡ (
            some (length data'),
            record w { nodes = put name (file (bytes ++ data')) w.nodes; unsynced = some name },
          )))
write_at-cases w fd data' = elim (Bool-cases (fd == 3)) [
  | inr e ↦ rw e (inl refl)
  | inl e ↦ rw e (elim (write_to-cases w.opened w data') [
    | inl f ↦ inl f
    | inr (name, bytes, o, g, same) ↦ inr (name, bytes, ap (Option.map (λ n. b'/' ∷ n)) o, g, same)
  ])
]

pub removed_at-cases :
    (w : World) (p : Str)
    → let r = removed_at w (place p) in
      (r ≡ (false, w))
      ⊎ ((name : Str) × (place p ≡ inside name)
          × (r ≡ (true, record w { nodes = del name w.nodes })))
removed_at-cases w p = elim (Place-cases (place p)) [
  | inl e ↦ rw e (inl refl)
  | inr (inl e) ↦ rw e (inl refl)
  | inr (inr (name, e)) ↦ rw e (elim (Bool-cases (is_file (lookup name w.nodes))) [
    | inl f ↦ rw f (inr (name, refl, refl))
    | inr f ↦ rw f (inl refl)
  ])
]

abbrev pub moved : World → Str → Str → Bytes → World
moved w name name' bytes = record w {
  nodes = put name' (file bytes) (del name w.nodes);
  unsynced = moved_mark name name' w.unsynced;
}

pub moved_at-cases :
    (w : World) (p q : Str)
    → let r = moved_at w (place p) (place q) in
      (r ≡ (false, w))
      ⊎ ((name : Str) × (name' : Str) × (bytes : Bytes) × (place p ≡ inside name)
          × (place q ≡ inside name')
          × (lookup name w.nodes ≡ some (file bytes))
          × (r ≡ (true, moved w name name' bytes)))
moved_at-cases w p q = elim (Place-cases (place p)) [
  | inl e ↦ rw e (inl refl)
  | inr (inl e) ↦ rw e (inl refl)
  | inr (inr (name, e)) ↦ rw e (elim (Place-cases (place q)) [
    | inl f ↦ rw f (inl refl)
    | inr (inl f) ↦ rw f (inl refl)
    | inr (inr (name', f)) ↦ rw f (elim (Node-cases (lookup name w.nodes)) [
      | inl g ↦ rw g (inl refl)
      | inr (inl g) ↦ rw g (inl refl)
      | inr (inr (inl g)) ↦ rw g (inl refl)
      | inr (inr (inr (bytes, g))) ↦ rw g (elim (Bool-cases (is_folder (lookup name' w.nodes))) [
        | inl h ↦ rw h (inl refl)
        | inr h ↦ rw h (inr (name, name', bytes, refl, refl, g, refl))
      ])
    ])
  ])
]

pub moved-to :
    (w : World) (q name name' : Str) (bytes : Bytes)
    → place q ≡ inside name'
    → node (moved w name name' bytes) q ≡ some (file bytes)
moved-to w q name name' bytes f = rw f (lookup-put name' (file bytes) (del name w.nodes))

pub moved-from :
    (w : World) (p q name name' : Str) (bytes : Bytes)
    → p ≢ q
    → place p ≡ inside name
    → place q ≡ inside name'
    → node (moved w name name' bytes) p ≡ none
moved-from w p q name name' bytes k e f =
    seen-put q p name' (file bytes) (del name w.nodes) (λ h. k (sym h)) f
    ∙ rw e (lookup-del name w.nodes)

pub moved-other :
    (w : World) (p q r name name' : Str) (bytes : Bytes)
    → p ≢ r
    → q ≢ r
    → place p ≡ inside name
    → place q ≡ inside name'
    → node (moved w name name' bytes) r ≡ node w r
moved-other w p q r name name' bytes k m e f =
    seen-put q r name' (file bytes) (del name w.nodes) m f ∙ seen-del p r name w.nodes k e
