-- ===== src/FileUtil/Reading.antt =====
-- `FileUtil::readFile`, `deleteFile` and `pathExists` on a POSIX file system.
use secure_storage.Base.{
  ℕ, ◌-◌, ◌≡◌, ◌≢◌, ◌↔◌, refl, ap, ◌∙◌, ◌⊎◌, inl, inr, true, false, Option, none, some, [], ◌∷◌,
  ◌++◌, arith, append-nil, length, replicate, take_all, Bool-cases, Option-cases, ◌||◌,
}
use secure_storage.Base.Text.{c_str, Str, Bytes, empty}
use secure_storage.Error.{Errc, success, invalid_argument, file_remove_failed}
use secure_storage.Os.{Os}
use secure_storage.Os.Posix.{IsPosix, IsFaultless, Node, Apart, file, kind?}
use secure_storage.FileUtil.{path_exists, delete_file, read_stream, read_file, is_present}

-- Reading as many bytes as the buffer holds leaves nothing of its zeros.
full-buffer :
    (got bytes : Bytes) → got ≡ bytes → got ++ replicate (length bytes - length got) 0 ≡ bytes
full-buffer got bytes e =
    let none_left : length bytes - length got ≡ 0 = omega (arith, ap length e) in
    rw none_left (append-nil got ∙ e)

kind-none : (n : Option Node) → is_present (kind? n) ≡ false → n ≡ none
kind-none none h = refl
kind-none (some n) h = absurd (cc)

module _ (os : Os) (P : IsPosix os) where
  -- `pathExists` is true exactly if the path is not empty and leads to something.
  pub path_exists_iff :
      (w : os.World) (p : Str) → (path_exists os w p ≡ true) ↔ ((p ≢ []) × (P.node w p ≢ none))
  unfolding path_exists
  path_exists_iff w [] = ground arith
  path_exists_iff w (c ∷ p) = rw P.stat_lem (ground (arith))

  -- A read that reached the size, or the end of the file, is the contents.
  read_stream-readable :
      (p : Str) (w : os.World) (b : ℕ) (bytes : Bytes)
      → P.node w p ≡ some (file (b ∷ bytes))
      → let chunk = os.read w (c_str p) (length (b ∷ bytes)) in
        (chunk.good || chunk.eof) ≡ true
        → read_stream os p (length (b ∷ bytes)) w ≡ (success, b ∷ bytes)
  unfolding read_stream
  read_stream-readable p w b bytes e h = ground (
    arith,
    full-buffer (os.read w (c_str p) n).bytes (b ∷ bytes),
    P.bytes_of w p (b ∷ bytes) n e (omega arith) h,
    take_all n (b ∷ bytes),
  )
    where
      n : ℕ
      n = length (b ∷ bytes)

  read_stream-bytes :
      (p : Str) (w : os.World) (bytes : Bytes)
      → P.node w p ≡ some (file bytes)
      → (read_stream os p (length bytes) w).0 ≡ success
      → (read_stream os p (length bytes) w).1 ≡ bytes
  unfolding read_stream
  read_stream-bytes p w [] e h = refl
  read_stream-bytes p w (b ∷ bytes) e h =
      ap (λ (r : Errc × Bytes). r.1) (read_stream-readable p w b bytes e (ground arith))

  -- If `readFile` reports success at a regular file, its output is the contents of the file.
  pub read_file-bytes :
      (p : Str) (w : os.World) (bytes : Bytes)
      → P.node w p ≡ some (file bytes)
      → (read_file os p w).0 ≡ success
      → (read_file os p w).1 ≡ bytes
  unfolding read_file
  read_file-bytes p w bytes e h = elim (Option-cases (os.tellg w (c_str p))) [
    | inl t ↦ ground arith
    | inr (n, t) ↦
        let size : n ≡ length bytes = P.size_of w p bytes n e t in
        ground (arith, read_stream-bytes p w bytes e)
  ]

  -- On any other report the output is empty, and a path to nothing is a failure to open.
  pub read_file-failed :
      (p : Str) (w : os.World) → (read_file os p w).0 ≢ success → (read_file os p w).1 ≡ []
  unfolding read_file read_stream
  read_file-failed p w h = ground arith

  pub read_file-missing :
      (p : Str) (w : os.World) → P.node w p ≡ none → (read_file os p w).0 ≢ success
  unfolding read_file
  read_file-missing p w e h = ground (arith, P.open_stream w p)

  -- `deleteFile` reports success, and then the path is not empty and leads to nothing; or
  -- `FileRemoveFailed`, and then the path led to something and everything is as it was; or an
  -- invalid argument, and then the path is empty and nothing changed.
  pub delete_file_lem :
      (p : Str) (w : os.World)
      → let (e, w') = delete_file os p w in
        ((e ≡ success) × (p ≢ []) × (P.node w' p ≡ none))
        ⊎ ((e ≡ file_remove_failed) × (P.node w p ≢ none) × ((q : Str) → P.node w' q ≡ P.node w q))
        ⊎ ((e ≡ invalid_argument) × (p ≡ []) × (w' ≡ w))
  unfolding delete_file
  delete_file_lem [] w = inr (inr (refl, refl, refl))
  delete_file_lem (c ∷ p) w = elim (Bool-cases (is_present (os.stat w (c_str (c ∷ p))))) [
    | inr e ↦ rw (e, delete_file) (inl (refl, λ k. cc, kind-none _ (rw P.stat_lem at e)))
    | inl e ↦ elim (Bool-cases (os.remove w (c_str (c ∷ p))).0) [
      | inl r ↦ rw (e, r, delete_file) (inl (refl, λ k. cc, P.removed w (c ∷ p) r))
      | inr r ↦
          rw (e, r, delete_file)
            (inr (
              inl (
                refl,
                λ k. cc (e, P.stat_lem w (c ∷ p), ap kind? k),
                λ q. P.remove_failed w (c ∷ p) q r,
              )))
    ]
  ]

  pub delete_file_others :
      (p q : Str) (w : os.World) → Apart p q → P.node (delete_file os p w).1 q ≡ P.node w q
  unfolding delete_file
  delete_file_others p q w a = ground (arith, P.remove_others w p q a)

  read_stream-faultless :
      IsFaultless P
      → (p : Str) (w : os.World) (bytes : Bytes) → P.node w p ≡ some (file bytes)
      → read_stream os p (length bytes) w ≡ (success, bytes)
  unfolding read_stream
  read_stream-faultless F p w [] e = refl
  read_stream-faultless F p w (b ∷ bytes) e =
      read_stream-readable p w b bytes e
        (ground (arith, F.reads w p (length (b ∷ bytes)) (b ∷ bytes) e (omega arith)))

  -- On a system where reading a file does not fail, `readFile` gives the contents of a regular file
  -- at a path that is not empty, with success.
  pub read_file-faultless :
      IsFaultless P
      → (p : Str) (w : os.World) (bytes : Bytes) → empty p ≡ false
      → P.node w p ≡ some (file bytes)
      → read_file os p w ≡ (success, bytes)
  unfolding read_file
  read_file-faultless F p w bytes s e =
      ground
        (arith, F.streams w p bytes e, F.tells w p bytes e, read_stream-faultless F p w bytes e)
