-- ===== src/Watcher/Events/Words.antt =====
-- `eventMaskToString` gives the names of the flags in the mask, with one space between two of them.
use secure_storage.Base.{
  ℕ, ◌≡◌, refl, ap, ◌∙◌, inl, inr, false, not, List, [], ◌∷◌, ◌++◌, append_assoc, append-nil,
  if◌then◌else◌, Bool-cases,
}
use secure_storage.Base.Text.{Str, codes, empty, pop_back}
use secure_storage.Inotify.{Inotify}
use secure_storage.Watcher.Events.{word, event_words, event_mask_to_string}

pop_back-append : (s : Str) (c : ℕ) → pop_back (s ++ (c ∷ [])) ≡ s
unfolding pop_back
pop_back-append [] c = refl
pop_back-append (d ∷ []) c = refl
pop_back-append (d ∷ e ∷ s) c = ap (◌∷◌ d) (pop_back-append (e ∷ s) c)

-- The words, with a space between two of them.
abbrev pub join_words : List Str → Str
join_words [] = []
join_words (s ∷ []) = s
join_words (s ∷ t ∷ l) = s ++ (b' ' ∷ join_words (t ∷ l))

-- The words, with a space after each.
spaced : List Str → Str
spaced [] = []
spaced (s ∷ l) = (s ++ (b' ' ∷ [])) ++ spaced l

spaced-join_words : (s : Str) (l : List Str) → spaced (s ∷ l) ≡ join_words (s ∷ l) ++ (b' ' ∷ [])
unfolding spaced
spaced-join_words s [] = append-nil _
spaced-join_words s (t ∷ l) = rw (spaced-join_words t l) (simp append_assoc)

empty-spaced : (s : Str) (l : List Str) → empty (spaced (s ∷ l)) ≡ false
unfolding spaced
empty-spaced [] l = refl
empty-spaced (c ∷ s) l = refl

trimmed :
    (l : List Str)
    → (if not (empty (spaced l)) then pop_back (spaced l) else spaced l) ≡ join_words l
unfolding spaced
trimmed [] = refl
trimmed (s ∷ l) =
    rw empty-spaced
      (ap pop_back (spaced-join_words s l) ∙ pop_back-append (join_words (s ∷ l)) b' ')

module _ {World : Type 0} (ino : Inotify World) where
  -- The flags of `sys/inotify.h` that can be in the mask of an event, with their names.
  abbrev pub flag_names : List (ℕ × Str)
  flag_names =
      (ino.in_access, codes "ACCESS")
      ∷ (ino.in_modify, codes "MODIFY")
      ∷ (ino.in_attrib, codes "ATTRIB")
      ∷ (ino.in_close_write, codes "CLOSE_WRITE")
      ∷ (ino.in_close_nowrite, codes "CLOSE_NOWRITE")
      ∷ (ino.in_open, codes "OPEN")
      ∷ (ino.in_moved_from, codes "MOVED_FROM")
      ∷ (ino.in_moved_to, codes "MOVED_TO")
      ∷ (ino.in_create, codes "CREATE")
      ∷ (ino.in_delete, codes "DELETE")
      ∷ (ino.in_delete_self, codes "DELETE_SELF")
      ∷ (ino.in_move_self, codes "MOVE_SELF")
      ∷ (ino.in_unmount, codes "UNMOUNT")
      ∷ (ino.in_q_overflow, codes "Q_OVERFLOW")
      ∷ (ino.in_ignored, codes "IGNORED")
      ∷ (ino.in_isdir, codes "ISDIR")
      ∷ []

  -- The names of the flags that the mask has, in that order.
  abbrev pub names_in : ℕ → List (ℕ × Str) → List Str
  names_in mask [] = []
  names_in mask ((flag, name) ∷ l) =
      let rest = names_in mask l in if ino.has mask flag then name ∷ rest else rest

  abbrev words : ℕ → List (ℕ × Str) → Str
  words mask [] = []
  words mask ((flag, name) ∷ l) = word ino mask flag (name ++ (b' ' ∷ [])) ++ words mask l

  words-spaced : (mask : ℕ) (l : List (ℕ × Str)) → words mask l ≡ spaced (names_in mask l)
  unfolding spaced word
  words-spaced mask [] = refl
  words-spaced mask ((flag, name) ∷ l) = elim (Bool-cases (ino.has mask flag)) [
    | inl e ↦ rw e (ap (λ t. (name ++ (b' ' ∷ [])) ++ t) (words-spaced mask l))
    | inr e ↦ rw e (words-spaced mask l)
  ]

  event_words-words : (mask : ℕ) → event_words ino mask ≡ words mask flag_names
  unfolding event_words
  event_words-words mask = simp append-nil

  -- `eventMaskToString` gives the names of the flags of the mask, in the order of the tests, with
  -- one space between two names and none at the end.
  pub event_mask_to_string_lem :
      (mask : ℕ) → event_mask_to_string ino mask ≡ join_words (names_in mask flag_names)
  unfolding event_mask_to_string
  event_mask_to_string_lem mask =
      rw (event_words-words mask ∙ words-spaced mask flag_names)
        (trimmed (names_in mask flag_names))
