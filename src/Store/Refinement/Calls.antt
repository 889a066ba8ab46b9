-- ===== src/Store/Refinement/Calls.antt =====
-- The single calls of `SecureStore`, whatever they report, as steps of the versions; and the calls in
-- which the process dies.
use secure_storage.Base.{
  ℕ, ◌≡◌, ◌≢◌, sym, ap, subst, ◌∙◌, ◌⊎◌, inl, inr, some, List, [], ◌∷◌, Bool-cases,
}
use secure_storage.Base.Text.{Str, Bytes}
use secure_storage.Error.{Errc, success, is_success, is_success_iff}
use secure_storage.Os.{Os}
use secure_storage.Os.Posix.{IsPosix, IsFaultless}
use secure_storage.Os.Crash.{mortal}
use secure_storage.Os.Crash.Laws.{mortal-IsPosix}
use secure_storage.Crypto.{Mbedtls, IsLawful}
use secure_storage.Store.{SecureStore, store_data, retrieve_data, delete_data}
use secure_storage.Store.Refinement.{Versions, change, RollsBack, OnlyFiles}
use secure_storage.Store.Refinement.Runs.{Restarted}
use secure_storage.Store.Refinement.Frame.{Rep}
use secure_storage.Store.Refinement.Storing.{object-Renewed, stored-Rep, unstored-Rep}
use secure_storage.Store.Refinement.Deleting.{deleted-Rep, undeleted-Rep}
use secure_storage.Store.Refinement.Retrieving.{found-step, missed-step}
use secure_storage.Store.Refinement.Restarting.{
  IsOpened, Rep-to_mortal, Rep-from_mortal, OnlyFiles-mortal, mortal-IsFaultless, Restarted-Rep,
}

-- The single calls, with the object that they leave.
module _ (os : Os) (P : IsPosix os) (mb : Mbedtls) (L : IsLawful mb) (root serial : Str) where
  abbrev pub Holding : Versions → SecureStore mb → os.World → Type 0
  Holding m s w = Rep os P mb L m s w × IsOpened os mb L root serial s

  module _ (m : Versions) (s : SecureStore mb) (w : os.World) (holding : Holding m s w) (i : Str)
      (only : OnlyFiles os P s.root_storage_path i w) where
    still-IsOpened :
        (v : Bytes) (e : Errc) (s1 : SecureStore mb) (w1 : os.World)
        → store_data os mb i v s w ≡ some (e, s1, w1)
        → IsOpened os mb L root serial s1
    still-IsOpened v e s1 w1 h =
        let new = object-Renewed os P mb L m s w holding.0 i v only e s1 w1 h in
        (sym new.same_root ∙ holding.1.0, sym new.same_key ∙ holding.1.1)

    pub stored-Holding :
        (v : Bytes) (s1 : SecureStore mb) (w1 : os.World)
        → store_data os mb i v s w ≡ some (success, s1, w1)
        → Holding (change i (v ∷ m i) m) s1 w1
    stored-Holding v s1 w1 h =
        (stored-Rep os P mb L m s w holding.0 i v only s1 w1 h, still-IsOpened v success s1 w1 h)

    pub unstored-Holding :
        (v : Bytes) (e : Errc) (s1 : SecureStore mb) (w1 : os.World)
        → e ≢ success
        → store_data os mb i v s w ≡ some (e, s1, w1)
        → Holding m s1 w1
    unstored-Holding v e s1 w1 n h =
        (unstored-Rep os P mb L m s w holding.0 i v only e s1 w1 n h, still-IsOpened v e s1 w1 h)

    pub store_step :
        (v : Bytes) (e : Errc) (s1 : SecureStore mb) (w1 : os.World)
        → store_data os mb i v s w ≡ some (e, s1, w1)
        → Holding (change i (v ∷ m i) m) s1 w1 ⊎ Holding m s1 w1
    store_step v e s1 w1 h = elim (Bool-cases (is_success e)) [
      | inl t ↦
          inl (stored-Holding v s1 w1 (h ∙ ap (λ c. some (c, s1, w1)) ((is_success_iff e).0 t)))
      | inr f ↦ inr (unstored-Holding v e s1 w1 (λ k. cc (f, (is_success_iff e).1 k)) h)
    ]

    pub delete_step :
        (e : Errc) (w1 : os.World)
        → delete_data os mb i s w ≡ (e, w1)
        → ((e ≡ success) × Rep os P mb L (change i [] m) s w1)
          ⊎ ((l : List Bytes) × RollsBack (m i) l × Rep os P mb L (change i l m) s w1)
    delete_step e w1 h = elim (Bool-cases (is_success e)) [
      | inl t ↦
          let done = (is_success_iff e).0 t in
          inl (done, deleted-Rep os P mb L m s w holding.0 i w1 only.0 (h ∙ ap (λ c. (c, w1)) done))
      | inr f ↦ inr (
          undeleted-Rep os P mb L m s w holding.0 i e w1 only (λ k. cc (f, (is_success_iff e).1 k))
            h)
    ]

    pub retrieve_step :
        IsFaultless P
        → (e : Errc) (out : Bytes) (w1 : os.World) → retrieve_data os mb i s w ≡ some (e, out, w1)
        → Rep os P mb L m s w1
    retrieve_step F e out w1 h = elim (Bool-cases (is_success e)) [
      | inl t ↦
          let done = (is_success_iff e).0 t in
          (found-step os P mb L m s w holding.0 i F out w1 only
            (h ∙ ap (λ c. some (c, out, w1)) done)).2
      | inr f ↦
          let failed : e ≢ success = λ k. cc (f, (is_success_iff e).1 k) in
          let (_, same) = missed-step os P mb L m s w holding.0 i F e out w1 only failed h in
          subst (Rep os P mb L m s) same holding.0
    ]

-- The same calls in a process that dies, and the restart.
module _ (os : Os) (P : IsPosix os) (mb : Mbedtls) (L : IsLawful mb) (root serial : Str)
    (m : Versions) (s : SecureStore mb) (w : os.World)
    (holding : Holding os P mb L root serial m s w) (i : Str)
    (only : OnlyFiles os P s.root_storage_path i w) (n k : ℕ) (s2 : SecureStore mb)
    (w1 w2 : os.World) (again : Restarted os mb root serial w1 s2 w2) where
  rep : Rep (mortal os) (mortal-IsPosix os P) mb L m s (w, n)
  rep = Rep-to_mortal os P mb L m s w n holding.0

  only_then : OnlyFiles (mortal os) (mortal-IsPosix os P) s.root_storage_path i (w, n)
  only_then = OnlyFiles-mortal os P mb L s.root_storage_path i w n only

  reopened :
      (m' : Versions) (s1 : SecureStore mb)
      → Rep (mortal os) (mortal-IsPosix os P) mb L m' s1 (w1, k)
      → IsOpened os mb L root serial s1
      → Holding os P mb L root serial m' s2 w2
  reopened m' s1 rep1 opened =
      Restarted-Rep os mb L root serial P m' s1 s2 w1 w2 (Rep-from_mortal os P mb L m' s1 w1 k rep1)
        opened again

  pub store_cut_step :
      (v : Bytes) (e : Errc) (s1 : SecureStore mb)
      → store_data (mortal os) mb i v s (w, n) ≡ some (e, s1, (w1, k))
      → Holding os P mb L root serial (change i (v ∷ m i) m) s2 w2
        ⊎ Holding os P mb L root serial m s2 w2
  store_cut_step v e s1 h =
      elim (store_step (mortal os) (mortal-IsPosix os P) mb L root serial m s (w, n)
        (rep, holding.1) i only_then v e s1 (w1, k) h) [
          | inl (rep1, opened) ↦ inl (reopened _ s1 rep1 opened)
          | inr (rep1, opened) ↦ inr (reopened m s1 rep1 opened)
        ]

  pub delete_cut_step :
      (e : Errc)
      → delete_data (mortal os) mb i s (w, n) ≡ (e, (w1, k))
      → Holding os P mb L root serial (change i [] m) s2 w2
        ⊎ ((l : List Bytes) × RollsBack (m i) l
            × Holding os P mb L root serial (change i l m) s2 w2)
  delete_cut_step e h =
      elim (delete_step (mortal os) (mortal-IsPosix os P) mb L root serial m s (w, n)
        (rep, holding.1) i only_then e (w1, k) h) [
          | inl (_, rep1) ↦ inl (reopened _ s rep1 holding.1)
          | inr (l, rolls, rep1) ↦ inr (l, rolls, reopened _ s rep1 holding.1)
        ]

  pub retrieve_cut_step :
      IsFaultless P
      → (e : Errc) (out : Bytes) → retrieve_data (mortal os) mb i s (w, n) ≡ some (e, out, (w1, k))
      → Holding os P mb L root serial m s2 w2
  retrieve_cut_step F e out h =
      reopened m s
        (retrieve_step (mortal os) (mortal-IsPosix os P) mb L root serial m s (w, n)
          (rep, holding.1) i only_then (mortal-IsFaultless os P mb L F) e out (w1, k) h)
        holding.1
