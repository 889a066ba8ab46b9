-- ===== src/FileUtil/Directories.antt =====
-- What `FileUtil::createDirectories` leaves as it was, and the rounds of its loop.
use secure_storage.Base.{
  ℕ, zero, suc, ◌≤◌, ◌<◌, ◌≡◌, ◌≢◌, refl, sym, subst, ◌∙◌, inl, inr, ◌||◌, Bool, true, false, none,
  some, [], ◌∷◌, arith, ltb, if◌then◌else◌, length, Bool-cases, Option-cases,
}
use secure_storage.Base.Text.{c_str, Str, codes, empty, str_eq, front_is, find_from}
use secure_storage.Os.{Os}
use secure_storage.Os.Posix.{IsPosix, device, contents?}
use secure_storage.FileUtil
use secure_storage.FileUtil.{
  is_directory, is_present, normalize, turn, visit, make_components, make_directories,
  create_directories, ensure_directory, path_exists,
}

-- From `w` to `w'` only directories were added.
pub record Adds {os : Os} (P : IsPosix os) (w w' : os.World) : Type 0 where
  pub contents : (q : Str) → contents? (P.node w' q) ≡ contents? (P.node w q)
  pub keeps : (q : Str) → P.node w q ≢ none → P.node w' q ≡ P.node w q
  pub no_device : (q : Str) → P.node w q ≢ some device → P.node w' q ≢ some device

module _ (os : Os) (P : IsPosix os) where
  pub Adds-refl : (w : os.World) → Adds P w w
  Adds-refl w = record { contents = λ q. refl; keeps = λ q h. refl; no_device = λ q h. h }

  pub Adds-trans : (u v w : os.World) → Adds P u v → Adds P v w → Adds P u w
  Adds-trans u v w f g = record {
    contents = λ q. g.contents q ∙ f.contents q;
    keeps = λ q h. g.keeps q (λ e. h (sym (f.keeps q h) ∙ e)) ∙ f.keeps q h;
    no_device = λ q h. g.no_device q (f.no_device q h);
  }

  Adds-mkdir : (w : os.World) (p : Str) → Adds P w (os.mkdir w (c_str p)).1
  Adds-mkdir w p = record {
    contents = P.mkdir_contents w p;
    keeps = P.mkdir_keeps w p;
    no_device = P.mkdir_device w p;
  }

  visit-Adds : (current : Str) (w : os.World) → Adds P w (visit os current w).1
  unfolding visit
  visit-Adds current w =
      elim (Bool-cases
        (empty current || str_eq current (codes ".") || str_eq current (codes ".."))) [
          | inl e ↦ rw (e, visit) (Adds-refl w)
          | inr e ↦ elim (Bool-cases (is_present (os.stat w (c_str current)))) [
            | inl p ↦ rw (e, p, visit) (Adds-refl w)
            | inr p ↦ rw (e, p, visit) (Adds-mkdir w current)
          ]
        ]

  make_components-Adds :
      (fuel : ℕ) (path : Str) (pos : ℕ) (w w' : os.World) (b : Bool)
      → make_components os fuel path pos w ≡ some (b, w')
      → Adds P w w'
  unfolding make_components
  make_components-Adds zero path pos w w' b h = absurd (cc)
  make_components-Adds (suc fuel) path pos w w' b h = elim (Bool-cases (ltb pos (length path))) [
    | inr e ↦ let same : w ≡ w' = ground arith in subst (λ v. Adds P w v) same (Adds-refl w)
    | inl e ↦ elim (Bool-cases (visit os current w).0) [
      | inr stop ↦
          let same : after ≡ w' = ground arith in
          subst (λ v. Adds P w v) same (visit-Adds current w)
      | inl go_on ↦
          Adds-trans w after w' (visit-Adds current w)
            (make_components-Adds fuel path (turn path pos).pos after w' b (ground arith))
    ]
  ]
    where
      current : Str
      current = (turn path pos).current

      after : os.World
      after = (visit os current w).1

  check_made-Adds :
      (path : Str) (r : Bool × os.World) (w : os.World)
      → Adds P w r.1
      → Adds P w (FileUtil.check_made os path r).1
  check_made-Adds path (false, w') w a = a
  check_made-Adds path (true, w') w a = elim (Bool-cases (is_directory (os.stat w' (c_str path)))) [
    | inl e ↦ rw e a
    | inr e ↦ rw e a
  ]

  make_directories-Adds : (path : Str) (w : os.World) → Adds P w (make_directories os path w).1
  unfolding make_directories
  make_directories-Adds path w =
      elim (Option-cases
        (make_components os (suc (length path)) path (if front_is b'/' path then 1 else 0) w)) [
          | inl e ↦ rw (e, make_directories) (Adds-refl w)
          | inr (r, e) ↦
              rw (e, make_directories)
                (check_made-Adds path r w (make_components-Adds _ path _ w r.1 r.0 e))
        ]

  -- Creating directories changes no file and nothing that is there.
  pub create_directories-Adds :
      (path : Str) (w : os.World) → Adds P w (create_directories os path w).1
  unfolding create_directories
  create_directories-Adds [] w = Adds-refl w
  create_directories-Adds (c ∷ path) w = elim (Option-cases (os.stat w (c_str (c ∷ path)))) [
    | inl e ↦ rw (e, create_directories) (make_directories-Adds _ w)
    | inr (k, e) ↦
        rw (e, create_directories)
          (elim (Bool-cases (is_directory (some k))) [
            | inl d ↦ rw d (Adds-refl w)
            | inr d ↦ rw d (Adds-refl w)
          ])
  ]

  pub ensure_directory-Adds : (dir : Str) (w : os.World) → Adds P w (ensure_directory os dir w).1
  unfolding ensure_directory
  ensure_directory-Adds [] w = Adds-refl w
  ensure_directory-Adds (c ∷ dir) w = elim (Bool-cases (path_exists os w (c ∷ dir))) [
    | inr e ↦ rw (e, ensure_directory) (create_directories-Adds _ w)
    | inl e ↦
        let same : (ensure_directory os (c ∷ dir) w).1 ≡ w = ground arith in rw same (Adds-refl w)
  ]

-- The next position is beyond this one, or the end.
find_from-le : (c : ℕ) (s : Str) (pos k : ℕ) → find_from c s pos ≡ some k → pos ≤ k
unfolding find_from
find_from-le c s pos k h = ground arith

pub turn_grows : (path : Str) (pos : ℕ) → pos < length path → pos < (turn path pos).pos
unfolding turn
turn_grows path pos h = elim (Option-cases (find_from b'/' path pos)) [
  | inl e ↦ rw (e, turn) h
  | inr (k, e) ↦ rw (e, turn) (omega (arith, find_from-le b'/' path pos k e))
]
