-- ===== src/Store/Power.antt =====
-- What the disk may have for an id after a loss of power, during the calls of `storeData` and `retrieveData`.
pub mod Files
pub mod Restoring
pub mod Retrieving
pub mod Steps
pub mod Storing
pub mod Writing
use secure_storage.Base.{
  ◌≡◌, ◌≢◌, refl, sym, subst, ◌∙◌, ◌⊎◌, inl, inr, Option, none, some, Option-cases,
}
use secure_storage.Base.Text.{Str, Bytes}
use secure_storage.Os.{Os}
use secure_storage.Os.Posix.{IsPosix, Apart, Node, file}
use secure_storage.Os.Durable.{Latest, Keeps, IsDurable}

-- The main file has one of these contents, or the backup has, and there is no main file.
abbrev pub Holds : (Bytes → Type 0) → Option Node → Option Node → Type 0
Holds V m b =
    (bytes : Bytes) × V bytes × ((m ≡ some (file bytes)) ⊎ ((m ≡ none) × (b ≡ some (file bytes))))

-- The contents that were there, or the new ones.
abbrev pub OrNew : (Bytes → Type 0) → Bytes → Bytes → Type 0
OrNew V new bytes = V bytes ⊎ (bytes ≡ new)

pub Holds-mono :
    (V V' : Bytes → Type 0) (m b : Option Node)
    → ((bytes : Bytes) → V bytes → V' bytes)
    → Holds V m b
    → Holds V' m b
Holds-mono V V' m b f (bytes, v, at) = (bytes, f bytes v, at)

module _ (os : Os) (P : IsPosix os) (D : IsDurable P) (main_file backup_file : Str) where
  -- What holds of the two files now, and would after a loss of power.
  pub record IsSafe (T : Option Node → Option Node → Type 0) (w : os.World) : Type 0 where
    pub now : T (P.node w main_file) (P.node w backup_file)
    pub main_synced : P.node w main_file ≢ none → D.Synced w main_file
    pub backup_synced : P.node w backup_file ≢ none → D.Synced w backup_file
    pub losses : (w' : os.World) → D.Loss w w' → T (P.node w' main_file) (P.node w' backup_file)

  pub IsSafe-mono :
      (T T' : Option Node → Option Node → Type 0) (w : os.World)
      → ((m b : Option Node) → T m b → T' m b)
      → IsSafe T w
      → IsSafe T' w
  IsSafe-mono T T' w f safe = record {
    now = f _ _ safe.now;
    main_synced = safe.main_synced;
    backup_synced = safe.backup_synced;
    losses = λ w' l. f _ _ (safe.losses w' l);
  }

  -- A disk that has everything has the file.
  on_disk :
      (w w' : os.World) (r : Str)
      → Latest P D.Loss D.Synced w w'
      → (P.node w r ≢ none → D.Synced w r)
      → P.node w' r ≡ P.node w r
  on_disk w w' r latest synced = elim (Option-cases (P.node w r)) [
    | inl e ↦ (latest r).0 e ∙ sym e
    | inr (n, e) ↦ (latest r).1 (synced (λ k. cc (e, k)))
  ]

  -- A call after which it holds, and the files are on the disk if they are there.
  pub IsSafe-call :
      (T : Option Node → Option Node → Type 0) (w w1 : os.World) (A B : Str → Type 0)
      → IsSafe T w
      → Keeps P D.Loss D.Synced w w1 A B
      → A main_file
      → A backup_file
      → T (P.node w1 main_file) (P.node w1 backup_file)
      → (P.node w1 main_file ≢ none → D.Synced w1 main_file)
      → (P.node w1 backup_file ≢ none → D.Synced w1 backup_file)
      → IsSafe T w1
  IsSafe-call T w w1 A B safe keeps am ab now main_synced backup_synced = record {
    now = now;
    main_synced = main_synced;
    backup_synced = backup_synced;
    losses = λ w' l. elim (keeps.loss w' l) [
      | inl (u, lu, agrees) ↦
          subst (λ (x : Option Node × Option Node). T x.0 x.1)
            (λ i. (sym (agrees main_file am) i, sym (agrees backup_file ab) i)) (safe.losses u lu)
      | inr latest ↦
          subst (λ (x : Option Node × Option Node). T x.0 x.1)
            (λ i. (
              sym (on_disk w1 w' main_file latest main_synced) i,
              sym (on_disk w1 w' backup_file latest backup_synced) i,
            ))
            now
    ];
  }

  -- A call that leaves both files as they are.
  pub IsSafe-quiet :
      (T : Option Node → Option Node → Type 0) (w w1 : os.World) (A B : Str → Type 0)
      → Keeps P D.Loss D.Synced w w1 A B
      → A main_file × A backup_file
      → B main_file × B backup_file
      → P.node w1 main_file ≡ P.node w main_file
      → P.node w1 backup_file ≡ P.node w backup_file
      → IsSafe T w
      → IsSafe T w1
  IsSafe-quiet T w w1 A B keeps (am, ab) (bm, bb) m b safe =
      IsSafe-call T w w1 A B safe keeps am ab
        (subst (λ (x : Option Node × Option Node). T x.0 x.1) (λ i. (sym m i, sym b i)) safe.now)
        (λ n. keeps.synced main_file bm (safe.main_synced (λ k. n (m ∙ k))))
        (λ n. keeps.synced backup_file bb (safe.backup_synced (λ k. n (b ∙ k))))
