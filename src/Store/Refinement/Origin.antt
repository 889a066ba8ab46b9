-- ===== src/Store/Refinement/Origin.antt =====
-- Where the data comes from that the runs of `SecureStore` find.
use mathlib.Core.List.{Memᴰ}
use mathlib.Core.List.Memᴰ
use secure_storage.Base.{
  ◌≡◌, refl, sym, ap, subst, ◌∙◌, ◌⊎◌, inl, inr, List, [], ◌∷◌, ◌++◌, Bool-cases,
}
use secure_storage.Base.Text.{IsPlain, Str, Bytes, str_eq, str_eq_iff}
use secure_storage.Os.{Os}
use secure_storage.Os.Posix.{IsPosix, IsFaultless}
use secure_storage.Crypto.{Mbedtls, IsLawful}
use secure_storage.Store.{SecureStore}
use secure_storage.Store.Refinement.{
  deleted, Versions, change, RollsBack, keeps, drops, Event, stored, found, store_cut, Plays,
  p_stored, p_unstored, p_deleted, p_undeleted, p_found, p_missed, p_asked, p_listed, p_unlisted,
  p_restarted, p_store_cut_stored, p_store_cut_unstored, p_delete_cut_deleted,
  p_delete_cut_undeleted, p_retrieve_cut, OnlyFiles,
}
use secure_storage.Store.Refinement.Runs.{Runs, visited}
use secure_storage.Store.Refinement.Frame.{change-same, change-other}
use secure_storage.Store.Refinement.Calls.{Holding}
use secure_storage.Store.Refinement.Simulation.{store-refines}

-- What a roll back leaves was there.
RollsBack-mem : {l l' : List Bytes} (v : Bytes) → RollsBack l l' → Memᴰ v l' → Memᴰ v l
RollsBack-mem v keeps is_in = is_in
RollsBack-mem v (drops r) is_in = Memᴰ.tail (RollsBack-mem v r is_in)

-- What is in a changed place is in the change, or was in the place before.
change-mem :
    (j : Str) (l : List Bytes) (m : Versions) (i : Str) (v : Bytes)
    → Memᴰ v (change j l m i)
    → ((i ≡ j) × Memᴰ v l) ⊎ Memᴰ v (m i)
change-mem j l m i v is_in = elim (Bool-cases (str_eq i j)) [
  | inl t ↦
      let e = (str_eq_iff i j).0 t in
      inl (e, subst (λ x. Memᴰ v x) (ap (change j l m) e ∙ change-same j l m) is_in)
  | inr f ↦
      inr (subst (λ x. Memᴰ v x) (change-other j l m i (λ e. cc (f, (str_eq_iff i j).1 e))) is_in)
]

-- A version is stored in these calls.
abbrev pub IsStored : Str → Bytes → List Event → Type 0
IsStored i v es = Memᴰ (stored i v) es ⊎ Memᴰ (store_cut i v) es

later :
    {i : Str} {v : Bytes} {es : List Event} (e : Event) → IsStored i v es → IsStored i v (e ∷ es)
later e (inl is_in) = inl (Memᴰ.tail is_in)
later e (inr is_in) = inr (Memᴰ.tail is_in)

-- Something that was so before a call, or is stored after it.
abbrev Traced : Versions → Str → Bytes → List Event → Type 0
Traced m i v es = Memᴰ v (m i) ⊎ IsStored i v es

after_call :
    {A : Type 0} {i : Str} {v : Bytes} {es : List Event} (e : Event)
    → A ⊎ IsStored i v es
    → A ⊎ IsStored i v (e ∷ es)
after_call e (inl is_in) = inl is_in
after_call e (inr is_stored) = inr (later e is_stored)

after_change :
    (j : Str) (l : List Bytes) (m : Versions) {i : Str} {v : Bytes} {es : List Event} (e : Event)
    → ((i ≡ j) → Memᴰ v l → Traced m i v (e ∷ es))
    → Traced (change j l m) i v es
    → Traced m i v (e ∷ es)
after_change j l m e changed (inr is_stored) = inr (later e is_stored)
after_change j l m {i = i} {v = v} e changed (inl is_in) = elim (change-mem j l m i v is_in) [
  | inl (same, is_in_l) ↦ changed same is_in_l
  | inr before ↦ inl before
]

-- A call that stores.
after_store :
    (j : Str) (u : Bytes) (m : Versions) {i : Str} {v : Bytes} {es : List Event} (e : Event)
    → IsStored j u (e ∷ es)
    → Traced (change j (u ∷ m j) m) i v es
    → Traced m i v (e ∷ es)
after_store j u m {i = i} {v = v} {es = es} e is_stored =
    after_change j (u ∷ m j) m e (λ same is_in. elim is_in [
      | Memᴰ.head is ↦ inr (
          subst (λ x. IsStored x v (e ∷ es)) (sym same)
            (subst (λ x. IsStored j x (e ∷ es)) (sym is) is_stored))
      | Memᴰ.tail is_in_m ↦ inl (subst (λ x. Memᴰ v (m x)) (sym same) is_in_m)
    ])

-- A call that rolls back.
after_roll :
    (j : Str) (l : List Bytes) (m : Versions) {i : Str} {v : Bytes} {es : List Event} (e : Event)
    → RollsBack (m j) l
    → Traced (change j l m) i v es
    → Traced m i v (e ∷ es)
after_roll j l m {v = v} e rolls =
    after_change j l m e
      (λ same is_in. inl (subst (λ x. Memᴰ v (m x)) (sym same) (RollsBack-mem v rolls is_in)))

Plays-found :
    (before after : List Event) {m m' : Versions} {i : Str} {v : Bytes}
    → Plays m (before ++ found i v ∷ after) m'
    → Traced m i v before
Plays-found [] after {i = i} {v = v} (p_found has plays) =
    inl (subst (λ l. Memᴰ v l) (sym has) (Memᴰ.head refl))
Plays-found (e ∷ before) after (p_stored {m = m} {data_id = j} {plain = u} plays) =
    after_store j u m e (inl (Memᴰ.head refl)) (Plays-found before after plays)
Plays-found (e ∷ before) after (p_unstored plays) = after_call e (Plays-found before after plays)
Plays-found (e ∷ before) after (p_deleted {m = m} {data_id = j} plays) =
    after_change j [] m e (λ _ is_in. absurd (Memᴰ.not-nil is_in)) (Plays-found before after plays)
Plays-found (e ∷ before) after (p_undeleted {m = m} {data_id = j} {l = l} rolls plays) =
    after_roll j l m e rolls (Plays-found before after plays)
Plays-found (e ∷ before) after (p_found has plays) = after_call e (Plays-found before after plays)
Plays-found (e ∷ before) after (p_missed has plays) = after_call e (Plays-found before after plays)
Plays-found (e ∷ before) after (p_asked has plays) = after_call e (Plays-found before after plays)
Plays-found (e ∷ before) after (p_listed up has plays) =
    after_call e (Plays-found before after plays)
Plays-found (e ∷ before) after (p_unlisted plays) = after_call e (Plays-found before after plays)
Plays-found (e ∷ before) after (p_restarted plays) = after_call e (Plays-found before after plays)
Plays-found (e ∷ before) after
      (p_store_cut_stored {m = m} {data_id = j} {plain = u} (p_stored plays)) =
    after_store j u m e (inr (Memᴰ.head refl)) (Plays-found before after plays)
Plays-found (e ∷ before) after (p_store_cut_unstored (p_unstored plays)) =
    after_call e (Plays-found before after plays)
Plays-found (e ∷ before) after (p_delete_cut_deleted {m = m} {data_id = j} (p_deleted plays)) =
    after_change j [] m e (λ _ is_in. absurd (Memᴰ.not-nil is_in)) (Plays-found before after plays)
Plays-found (e ∷ before) after
      (p_delete_cut_undeleted {m = m} {data_id = j} (p_undeleted {l = l} rolls plays)) =
    after_roll j l m e rolls (Plays-found before after plays)
Plays-found (e ∷ before) after (p_retrieve_cut plays) =
    after_call e (Plays-found before after plays)

module _ (os : Os) (P : IsPosix os) (F : IsFaultless P) (mb : Mbedtls) (L : IsLawful mb)
    (root serial : Str) where
  -- For the runs of `store-refines`, deaths of the process and restarts among them: data that is
  -- retrieved for an id that had no version at the start of the run was stored for that id before,
  -- in a call that succeeded or in one in which the process died.
  pub found-IsStored :
      {s s' : SecureStore mb} {w w' : os.World} (m : Versions) (before after : List Event) (i : Str)
      (v : Bytes) (run : Runs os mb root serial s w (before ++ found i v ∷ after) s' w')
      → ((base j : Str) (u : os.World)
          → Memᴰ (base, j, u) (visited os mb root serial run)
          → OnlyFiles os P base j u)
      → ((j : Str) → Memᴰ (deleted j) (before ++ found i v ∷ after) → IsPlain j)
      → Holding os P mb L root serial m s w
      → m i ≡ []
      → IsStored i v before
  found-IsStored m before after i v run only plain holding none_yet =
      let (_, plays, _) = store-refines os P F mb L root serial m run only plain holding in
      elim (Plays-found before after plays) [
        | inl is_in ↦ absurd (Memᴰ.not-nil (subst (λ l. Memᴰ v l) none_yet is_in))
        | inr is_stored ↦ is_stored
      ]
