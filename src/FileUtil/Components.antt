-- ===== src/FileUtil/Components.antt =====
-- Which paths `FileUtil::createDirectories` tries.
use secure_storage.Base.{
  ℕ, zero, suc, ◌+◌, ◌-◌, ◌≤◌, ◌<◌, ◌≡◌, ◌≢◌, refl, ◌∙◌, inl, inr, Bool, true, false, none, some,
  List, [], ◌∷◌, ◌==◌, arith, ltb, if◌then◌else◌, length, take, drop, length-drop, take_all, ◌&&◌,
  Bool-cases, Option-cases,
}
use mathlib.Core.List.{map}
use secure_storage.Base.Text.{c_str, Str, empty, front_is, find, find_from}
use secure_storage.Os.{Os}
use secure_storage.FileUtil
use secure_storage.FileUtil.Directories.{turn_grows}
use secure_storage.FileUtil.{
  turn, visit, make_components, make_directories, create_directories, normalize,
}

-- The ends of the segments of a text: each slash that is not the first character of the text, and
-- the end of the text unless a slash is before it. The index is that of the first character.
abbrev pub cuts : ℕ → Bool → Str → List ℕ
cuts p fresh [] = if fresh then [] else p ∷ []
cuts p fresh (c ∷ s) =
    let at_slash = cuts (suc p) true s in
    let within = cuts (suc p) false s in if c == b'/' then p ∷ at_slash else within

-- The path up to each of these ends.
abbrev pub prefixes : Str → List Str
prefixes [] = []
prefixes (c ∷ s) =
    map (λ k. take k (c ∷ s)) (if c == b'/' then cuts 1 true s else cuts 0 true (c ∷ s))

cuts-find :
    (p : ℕ) (fresh : Bool) (s : Str) (k : ℕ)
    → find b'/' s ≡ some k
    → cuts p fresh s ≡ (p + k) ∷ cuts (p + suc k) true (drop (suc k) s)
unfolding find
cuts-find p fresh [] k h = absurd (cc)
cuts-find p fresh (c ∷ s) k h = elim (Bool-cases (c == b'/')) [
  | inl e ↦
      let zero_k : 0 ≡ k = ground arith in
      let here : p ≡ p + 0 = omega arith in
      let next : suc p ≡ p + 1 = omega arith in
      rw (e, ← zero_k) (λ i. here i ∷ cuts (next i) true s)
  | inr e ↦ elim (Option-cases (find b'/' s)) [
    | inl f ↦ absurd (ground arith)
    | inr (j, f) ↦
        let suc_k : suc j ≡ k = ground arith in
        let here : suc p + j ≡ p + suc j = omega arith in
        let next : suc p + suc j ≡ p + suc (suc j) = omega arith in
        rw (e, ← suc_k, cuts-find (suc p) false s j f)
          (λ i. here i ∷ cuts (next i) true (drop (suc j) s))
  ]
]

cuts-none : (p : ℕ) (s : Str) → find b'/' s ≡ none → cuts p false s ≡ (p + length s) ∷ []
unfolding find
cuts-none p [] h = let here : p ≡ p + 0 = omega arith in λ i. here i ∷ []
cuts-none p (c ∷ s) h =
    let e : (c == b'/') ≡ false = ground arith in
    let f : find b'/' s ≡ none = ground arith in
    let here : suc p + length s ≡ p + suc (length s) = omega arith in
    rw (e, cuts-none (suc p) s f) (λ i. here i ∷ [])

cuts-last :
    (p : ℕ) (s : Str) → find b'/' s ≡ none → 0 < length s → cuts p true s ≡ (p + length s) ∷ []
unfolding find
cuts-last p [] h n = absurd (omega (arith, n))
cuts-last p (c ∷ s) h n =
    let e : (c == b'/') ≡ false = ground arith in
    let f : find b'/' s ≡ none = ground arith in
    let here : suc p + length s ≡ p + suc (length s) = omega arith in
    rw (e, cuts-none (suc p) s f) (λ i. here i ∷ [])

drop-nil : (m : ℕ) → drop {A = ℕ} m [] ≡ []
drop-nil zero = refl
drop-nil (suc m) = refl

drop-drop : (m n : ℕ) (s : Str) → drop m (drop n s) ≡ drop (n + m) s
drop-drop m zero s = let same : m ≡ 0 + m = omega arith in λ i. drop (same i) s
drop-drop m (suc n) [] =
    let same : suc (n + m) ≡ suc n + m = omega arith in drop-nil m ∙ λ i. drop (same i) []
drop-drop m (suc n) (c ∷ s) =
    let same : suc (n + m) ≡ suc n + m = omega arith in drop-drop m n s ∙ λ i. drop (same i) (c ∷ s)

drop_all : (n : ℕ) (s : Str) → length s ≤ n → drop n s ≡ []
drop_all zero [] h = refl
drop_all zero (c ∷ s) h = absurd (omega (arith, h))
drop_all (suc n) [] h = refl
drop_all (suc n) (c ∷ s) h = drop_all n s (omega (arith, h))

-- The loop begins behind a slash at the start of the path.
abbrev Begun : Str → ℕ → Type 0
Begun path pos = (front_is b'/' path ≡ true) → 0 < pos

take-front : (k : ℕ) (path : Str) → 0 < k → (empty (take k path) && front_is b'/' path) ≡ false
unfolding front_is
take-front zero path h = absurd (omega (arith, h))
take-front (suc k) [] h = refl
take-front (suc k) (c ∷ path) h = refl

not-root :
    (path : Str) (pos k : ℕ)
    → Begun path pos
    → (empty (take (pos + k) path) && front_is b'/' path) ≡ false
not-root path pos k begun = elim (Bool-cases (front_is b'/' path)) [
  | inl e ↦ take-front (pos + k) path (let h = begun e in omega (arith, h))
  | inr e ↦ ground arith
]

cuts-turn :
    (path : Str) (pos : ℕ)
    → pos < length path
    → Begun path pos
    → map (λ k. take k path) (cuts pos true (drop pos path))
      ≡ (turn path pos).current
        ∷ map (λ k. take k path) (cuts (turn path pos).pos true (drop (turn path pos).pos path))
unfolding turn find_from
cuts-turn path pos h begun = elim (Option-cases (find b'/' (drop pos path))) [
  | inl e ↦
      let left : length (drop pos path) ≡ length path - pos = length-drop pos path in
      let all : pos + length (drop pos path) ≡ length path = omega (arith, left) in
      rw
        (
          e,
          turn,
          find_from,
          cuts-last pos (drop pos path) e (omega (arith, left)),
          all,
          drop_all (length path) path (omega arith),
          take_all (length path) path (omega arith),
        )
        refl
  | inr (k, e) ↦
      let next : pos + suc k ≡ (pos + k) + 1 = omega arith in
      rw
        (
          e,
          turn,
          find_from,
          cuts-find pos true (drop pos path) k e,
          drop-drop (suc k) pos path,
          not-root path pos k begun,
        )
        (λ i.
          take (pos + k) path ∷ map (λ k. take k path) (cuts (next i) true (drop (next i) path)))
]

module _ (os : Os) where
  -- One path after another, up to the first that fails.
  pub try_all : List Str → os.World → Bool × os.World
  try_all [] w = (true, w)
  try_all (p ∷ ps) w =
      let (go_on, w') = visit os p w in
      let rest = try_all ps w' in if go_on then rest else (false, w')

  make_components_lem :
      (fuel : ℕ) (path : Str) (pos : ℕ) (w : os.World)
      → length path - pos < fuel
      → Begun path pos
      → make_components os fuel path pos w
        ≡ some (try_all (map (λ k. take k path) (cuts pos true (drop pos path))) w)
  unfolding make_components try_all
  make_components_lem zero path pos w h b = absurd (omega (arith, h))
  make_components_lem (suc fuel) path pos w h b = elim (Bool-cases (ltb pos (length path))) [
    | inr e ↦ rw (e, drop_all pos path (ground arith)) refl
    | inl e ↦
        let more : pos < length path = ground arith in
        let grows = turn_grows path pos more in
        rw (e, cuts-turn path pos more b)
          (elim (Bool-cases (visit os (turn path pos).current w).0) [
            | inr f ↦ rw f refl
            | inl f ↦ rw f (
                make_components_lem fuel path (turn path pos).pos
                  (visit os (turn path pos).current w).1 (omega (arith, h, grows, more))
                  (λ _. omega (arith, grows)))
          ])
  ]

  make_directories-tries :
      (path : Str) (w : os.World)
      → make_directories os path w ≡ FileUtil.check_made os path (try_all (prefixes path) w)
  unfolding make_directories front_is
  make_directories-tries [] w =
      rw (make_components_lem 1 [] 0 w (omega arith) (λ h. absurd (cc)), make_directories) refl
  make_directories-tries (c ∷ s) w = elim (Bool-cases (c == b'/')) [
    | inl e ↦
        rw
          (
            e,
            make_components_lem (suc (suc (length s))) (c ∷ s) 1 w (omega arith) (λ _. omega arith),
            make_directories,
          )
          refl
    | inr e ↦
        rw
          (
            e,
            make_components_lem (suc (suc (length s))) (c ∷ s) 0 w (omega arith)
                (λ h. absurd (cc (h, e))),
            make_directories,
          )
          (rw e refl)
  ]

  -- For a path that is not empty and at which `stat` finds nothing: `createDirectories` tries, one
  -- after another, the parts of the normalised path that end before a slash that is not its first
  -- character, and the whole path unless it ends in a slash, up to the first that fails. It reports
  -- a failed operation if one fails; else success or a failed operation, as the normalised path
  -- then is a directory or is not.
  pub create_directories-tries :
      (path : Str) (w : os.World)
      → path ≢ []
      → os.stat w (c_str path) ≡ none
      → create_directories os path w
        ≡ FileUtil.check_made os (normalize path) (try_all (prefixes (normalize path)) w)
  unfolding create_directories
  create_directories-tries [] w n e = absurd (n refl)
  create_directories-tries (c ∷ s) w n e =
      rw (e, create_directories) (make_directories-tries (normalize (c ∷ s)) w)
