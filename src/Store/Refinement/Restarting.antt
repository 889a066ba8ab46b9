-- ===== src/Store/Refinement/Restarting.antt =====
-- Deaths of the process and restarts as steps of the versions.
use secure_storage.Base.{
  ℕ, ◌≡◌, ◌≢◌, sym, ap, subst, ◌∙◌, inl, inr, true, none, some, List, [], ◌∷◌, arith,
}
use secure_storage.Base.Text.{Str, Bytes}
use secure_storage.Os.{Os}
use secure_storage.Os.Posix.{IsPosix, IsFaultless, contents?}
use secure_storage.Os.Crash.{mortal}
use secure_storage.Os.Crash.Laws.{mortal-IsPosix}
use secure_storage.FileUtil.Directories.{Adds, create_directories-Adds}
use secure_storage.Crypto.{Mbedtls, IsLawful}
use secure_storage.Crypto.Encryptor.{ready?, encryptor, default_seed}
use secure_storage.Store.{SecureStore, initialize, secure_store}
use secure_storage.Store.Lifecycle.{IsReady, with_separator, derived, secure_store-IsSound}
use secure_storage.Store.Refinement.{Versions, OnlyFiles}
use secure_storage.Store.Refinement.Runs.{Restarted}
use secure_storage.Store.Refinement.Cells.{Cell}
use secure_storage.Store.Refinement.Frame.{Rep, renewed-Rep}

module _ (os : Os) (P : IsPosix os) (mb : Mbedtls) (L : IsLawful mb) where
  Cell-to_mortal :
      (root : Str) (key : Bytes) (q : Str) (l : List Bytes) (w : os.World) (n : ℕ)
      → Cell os P mb L root key q l w
      → Cell (mortal os) (mortal-IsPosix os P) mb L root key q l (w, n)
  unfolding mortal-IsPosix
  Cell-to_mortal root key q [] w n h = h
  Cell-to_mortal root key q (plain ∷ l) w n h = h

  Cell-from_mortal :
      (root : Str) (key : Bytes) (q : Str) (l : List Bytes) (w : os.World) (n : ℕ)
      → Cell (mortal os) (mortal-IsPosix os P) mb L root key q l (w, n)
      → Cell os P mb L root key q l w
  unfolding mortal-IsPosix
  Cell-from_mortal root key q [] w n h = h
  Cell-from_mortal root key q (plain ∷ l) w n h = h

  -- What the files hold does not depend on how long the process lives.
  pub Rep-to_mortal :
      (m : Versions) (s : SecureStore mb) (w : os.World) (n : ℕ)
      → Rep os P mb L m s w
      → Rep (mortal os) (mortal-IsPosix os P) mb L m s (w, n)
  Rep-to_mortal m s w n rep = record {
    ready = rep.ready;
    base = rep.base;
    works = rep.works;
    no_others = rep.no_others;
    cells = λ q good. Cell-to_mortal _ _ q (m q) w n (rep.cells q good);
  }

  pub Rep-from_mortal :
      (m : Versions) (s : SecureStore mb) (w : os.World) (n : ℕ)
      → Rep (mortal os) (mortal-IsPosix os P) mb L m s (w, n)
      → Rep os P mb L m s w
  Rep-from_mortal m s w n rep = record {
    ready = rep.ready;
    base = rep.base;
    works = rep.works;
    no_others = rep.no_others;
    cells = λ q good. Cell-from_mortal _ _ q (m q) w n (rep.cells q good);
  }

  pub OnlyFiles-mortal :
      (root data_id : Str) (w : os.World) (n : ℕ)
      → OnlyFiles os P root data_id w
      → OnlyFiles (mortal os) (mortal-IsPosix os P) root data_id (w, n)
  unfolding mortal-IsPosix
  OnlyFiles-mortal root data_id w n only = only

  pub mortal-IsFaultless : IsFaultless P → IsFaultless (mortal-IsPosix os P)
  unfolding mortal-IsPosix
  mortal-IsFaultless F = record {
    streams = λ w p. F.streams w.0 p;
    tells = λ w p. F.tells w.0 p;
    reads = λ w p. F.reads w.0 p;
  }

module _ (os : Os) (mb : Mbedtls) (L : IsLawful mb) (root serial : Str) where
  -- The object is one that was opened with the root path and the serial number.
  abbrev pub IsOpened : SecureStore mb → Type 0
  IsOpened s =
      (s.root_storage_path ≡ with_separator root) × (s.master_key ≡ (derived os mb L serial).1)

  initialize-parts :
      (path : Str) (entropy : mb.Rng)
      → let s = initialize mb path serial entropy in
        s.initialized ≡ true
        → (s.root_storage_path ≡ path)
          × (s.master_key ≡ (derived os mb L serial).1)
          × (s.encryptor ≡ some (encryptor mb default_seed entropy))
  unfolding initialize
  initialize-parts path entropy h = ground arith

  secure_store-parts :
      (entropy : mb.Rng) (w : os.World)
      → let s = (secure_store os mb root serial entropy w).0 in
        s.initialized ≡ true → IsOpened s × (s.encryptor ≡ some (encryptor mb default_seed entropy))
  unfolding secure_store
  secure_store-parts entropy w h = ground (arith, initialize-parts (with_separator root) entropy)

  module _ (P : IsPosix os) where
    secure_store-contents :
        (entropy : mb.Rng) (w : os.World) (q : Str)
        → contents? (P.node (secure_store os mb root serial entropy w).1 q) ≡ contents? (P.node w q)
    unfolding secure_store
    secure_store-contents entropy w q =
        ground (arith, Adds.contents (create_directories-Adds os P (with_separator root) w) q)

  seeded-ready :
      (entropy : mb.Rng)
      → (mb.seed entropy default_seed).0 ≡ true
      → ready? mb (encryptor mb default_seed entropy) ≢ none
  unfolding ready? encryptor
  seeded-ready entropy h n = ground arith

  -- A store that is opened anew is ready for use.
  anew :
      (entropy : mb.Rng) (w : os.World)
      → let s = (secure_store os mb root serial entropy w).0 in
        s.initialized ≡ true
        → (mb.seed entropy default_seed).0 ≡ true
        → (on : IsReady mb s) × (ready? mb on.e ≢ none) × IsOpened s
  anew entropy w h seeded = elim (secure_store-IsSound os mb L root serial entropy w) [
    | inl off ↦ absurd (cc (off, h))
    | inr on ↦
        let (opened, enc) = secure_store-parts entropy w h in
        let same : encryptor mb default_seed entropy ≡ on.e = cc (enc, on.encryptor) in
        (on, subst (λ e. ready? mb e ≢ none) same (seeded-ready entropy seeded), opened)
  ]

  module _ (P : IsPosix os) where
    -- A new process with the same root path and serial number finds all versions.
    pub Restarted-Rep :
        (m : Versions) (s s' : SecureStore mb) (w w' : os.World)
        → Rep os P mb L m s w
        → IsOpened s
        → Restarted os mb root serial w s' w'
        → Rep os P mb L m s' w' × IsOpened s'
    Restarted-Rep m s s' w w' rep (same_root, same_key) r =
        subst (λ (x : SecureStore mb × os.World). Rep os P mb L m x.0 x.1 × IsOpened x.0) r.opened
          (let (on, works, opened) =
              anew r.entropy w (ap (λ x. x.0.initialized) r.opened ∙ r.initialized) r.seeded in
            (
              renewed-Rep os P mb L m s _ w _ rep on works (same_root ∙ sym opened.0)
                  (same_key ∙ sym opened.1) (secure_store-contents P r.entropy w),
              opened,
            ))
