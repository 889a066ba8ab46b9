-- ===== src/Logger/Lines.antt =====
-- The file name that a log line shows, and which messages are output.
use secure_storage.Base.{
  ℕ, suc, ◌≡◌, refl, sym, ◌∙◌, ◌⊎◌, inl, inr, Bool, true, false, none, some, List, [], ◌∷◌, ◌++◌,
  append_assoc, append-nil, arith, drop, take, take-append-drop, ltb, leb, if◌then◌else◌,
  Bool-cases, Option-cases,
}
use secure_storage.Base.Text.{Str, find_last, back_is, is_separator}
use secure_storage.Logger.{LogLevel, rank, Logger, file_name, log_line, log}

module _ (p : ℕ → Bool) where
  -- The last place is in the rest, or it is the first character, or there is none.
  find_last-cases :
      (c k : ℕ) (s : Str)
      → find_last p (c ∷ s) ≡ some k
      → ((j : ℕ) × (find_last p s ≡ some j) × (k ≡ suc j))
        ⊎ ((find_last p s ≡ none) × (p c ≡ true) × (k ≡ 0))
  unfolding find_last
  find_last-cases c k s h = elim (Option-cases (find_last p s)) [
    | inr (j, e) ↦ inl (j, e, ground arith)
    | inl e ↦ inr (e, ground arith, ground arith)
  ]

  -- The text up to the last place ends there, and the rest has none.
  find_last-cut :
      (s : Str) (k : ℕ)
      → find_last p s ≡ some k
      → (back_is p (take (suc k) s) ≡ true) × (find_last p (drop (suc k) s) ≡ none)
  unfolding find_last back_is
  find_last-cut [] k h = absurd (cc)
  find_last-cut (c ∷ []) k h = elim (find_last-cases c k [] h) [
    | inl (j, e, _) ↦ absurd (cc)
    | inr (e, t, z) ↦ rw z (t, refl)
  ]
  find_last-cut (c ∷ d ∷ s) k h = elim (find_last-cases c k (d ∷ s) h) [
    | inl (j, e, z) ↦ rw z (find_last-cut (d ∷ s) j e)
    | inr (e, t, z) ↦ rw z (t, e)
  ]

-- The name that a log line shows for a file has no slash and no backslash, and the path is that name behind
-- nothing, or behind text that ends in a slash or a backslash.
pub file_name_lem :
    (file : Str)
    → (find_last is_separator (file_name file) ≡ none)
      × ((front : Str) × (file ≡ front ++ file_name file)
          × ((front ≡ []) ⊎ (back_is is_separator front ≡ true)))
unfolding file_name
file_name_lem file = elim (Option-cases (find_last is_separator file)) [
  | inl e ↦ rw (e, file_name) (e, ([], refl, inl refl))
  | inr (k, e) ↦
      let (ends, none_left) = find_last-cut is_separator file k e in
      rw (e, file_name)
        (none_left, (take (suc k) file, sym (take-append-drop (suc k) file), inr ends))
]

-- A message, as `log` is called with it.
pub record Entry : Type 0 where
  pub timestamp : Str
  pub level : LogLevel
  pub message : Str
  pub file : Str
  pub line : ℕ

module _ (show_line : ℕ → Str) (lg : Logger) where
  abbrev pub log_all : List Entry → List Str → List Str
  log_all [] out = out
  log_all (m ∷ ms) out =
      log_all ms (log show_line m.timestamp m.level m.message m.file m.line lg out)

  -- The lines of the messages that reach the threshold.
  abbrev pub lines_of : List Entry → List Str
  lines_of [] = []
  lines_of (m ∷ ms) =
      if leb (rank lg.current_level) (rank m.level)
      then log_line show_line m.timestamp m.level m.message m.file m.line ∷ lines_of ms
      else lines_of ms

  -- Logging messages one after the other outputs, behind what was output before, one line for each
  -- message whose level is at least the threshold, in their order, and none for the others.
  pub log_all_lem : (ms : List Entry) (out : List Str) → log_all ms out ≡ out ++ lines_of ms
  unfolding log
  log_all_lem [] out = sym (append-nil out)
  log_all_lem (m ∷ ms) out = elim (Bool-cases (leb (rank lg.current_level) (rank m.level))) [
    | inl e ↦
        let passes : ltb (rank m.level) (rank lg.current_level) ≡ false = ground arith in
        rw (e, passes, log) (log_all_lem ms _ ∙ append_assoc out _ (lines_of ms))
    | inr e ↦
        let skips : ltb (rank m.level) (rank lg.current_level) ≡ true = ground arith in
        rw (e, skips, log) (log_all_lem ms out)
  ]
