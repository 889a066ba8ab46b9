-- ===== src/Watcher/Watches.antt =====
-- What `addWatch` and `removeWatch` of `FileWatcher` do to the paths that are watched.
use secure_storage.Base.{
  ℕ, ◌≡◌, ◌≢◌, refl, sym, ap, ◌⊎◌, inl, inr, true, false, none, some, ==_iff, Option-cases,
}
use secure_storage.Base.Text.{Str, str_eq, str_eq_iff}
use secure_storage.Os.{Os}
use secure_storage.Inotify.{Inotify}
use secure_storage.Watcher.{
  Watcher, path_of, wd_of, enter, leave, watch_path, unwatch_path, add_watch, remove_watch,
}
use secure_storage.Watcher.Maps.{
  add_watch-cases, remove_watch-cases, wd_of-enter, path_of-leave, wd_of-leave, str_eq_differ,
}

str_eq_refl : (s : Str) → str_eq s s ≡ true
str_eq_refl s = (str_eq_iff s s).1 refl

module _ (os : Os) (ino : Inotify os.World) (path : Str) (fw : Watcher) (w : os.World) where
  -- `addWatch` reports success, and then the path has a descriptor and no other path has gained or
  -- lost one; or it reports a failure, and then the object is as it was.
  pub add_watch_lem :
      let (done, fw', w') = add_watch os ino path fw w in
      ((done ≡ true)
        × (wd_of path fw'.path_to_wd ≢ none)
        × ((q : Str) → q ≢ path → wd_of q fw'.path_to_wd ≡ wd_of q fw.path_to_wd))
      ⊎ ((done ≡ false) × (fw' ≡ fw))
  unfolding watch_path
  add_watch_lem = elim (add_watch-cases os ino path fw w) [
    | inl e ↦ rw e (inr (refl, refl))
    | inr (fd, _, _, e) ↦ rw e (watched fd)
  ]
    where
      entered :
          (wd : ℕ)
          → (wd_of path (enter path wd fw).path_to_wd ≢ none)
            × ((q : Str) → q ≢ path → wd_of q (enter path wd fw).path_to_wd ≡ wd_of q fw.path_to_wd)
      entered wd = (
        rw (wd_of-enter path path wd fw, str_eq_refl path) (λ k. cc),
        λ q n. rw (wd_of-enter path q wd fw, str_eq_differ path q n) refl,
      )

      watched :
          (fd : ℕ)
          → let (done, fw', w') = watch_path os ino fd path fw w in
            ((done ≡ true)
              × (wd_of path fw'.path_to_wd ≢ none)
              × ((q : Str) → q ≢ path → wd_of q fw'.path_to_wd ≡ wd_of q fw.path_to_wd))
            ⊎ ((done ≡ false) × (fw' ≡ fw))
      watched fd = elim (Option-cases (wd_of path fw.path_to_wd)) [
        | inr (wd, e) ↦ rw (e, watch_path) (inl (refl, (λ k. cc (e, k)), λ q n. refl))
        | inl e ↦ elim (Option-cases (ino.add_watch w fd path ino.watched_mask).0) [
          | inl f ↦ rw (e, f, watch_path) (inr (refl, refl))
          | inr (wd, f) ↦ rw (e, f, watch_path) (inl (refl, (entered wd).0, (entered wd).1))
        ]
      ]

  -- `removeWatch` reports success, and then the path had a descriptor and has none now, and no other path
  -- has gained or lost one; or it reports a failure, and then the object is as it was.
  pub remove_watch_lem :
      let (done, fw', w') = remove_watch os ino path fw w in
      ((done ≡ true)
        × (wd_of path fw.path_to_wd ≢ none)
        × (wd_of path fw'.path_to_wd ≡ none)
        × ((q : Str) → q ≢ path → wd_of q fw'.path_to_wd ≡ wd_of q fw.path_to_wd))
      ⊎ ((done ≡ false) × (fw' ≡ fw))
  unfolding unwatch_path
  remove_watch_lem = elim (remove_watch-cases os ino path fw w) [
    | inl e ↦ rw e (inr (refl, refl))
    | inr (fd, _, e) ↦ rw e (removed fd)
  ]
    where
      removed :
          (fd : ℕ)
          → let (done, fw', w') = unwatch_path os ino fd path fw w in
            ((done ≡ true)
              × (wd_of path fw.path_to_wd ≢ none)
              × (wd_of path fw'.path_to_wd ≡ none)
              × ((q : Str) → q ≢ path → wd_of q fw'.path_to_wd ≡ wd_of q fw.path_to_wd))
            ⊎ ((done ≡ false) × (fw' ≡ fw))
      removed fd = elim (Option-cases (wd_of path fw.path_to_wd)) [
        | inl e ↦ rw (e, unwatch_path) (inr (refl, refl))
        | inr (wd, e) ↦
            rw (e, unwatch_path)
              (inl (
                refl,
                (λ k. cc),
                rw (wd_of-leave path path wd fw, str_eq_refl path) refl,
                λ q n. rw (wd_of-leave path q wd fw, str_eq_differ path q n) refl,
              ))
      ]

module _ (os : Os) (ino : Inotify os.World) (fd wd : ℕ) (fw : Watcher) where
  watch_path-new :
      (path : Str) (w w' : os.World)
      → wd_of path fw.path_to_wd ≡ none
      → ino.add_watch w fd path ino.watched_mask ≡ (some wd, w')
      → watch_path os ino fd path fw w ≡ (true, enter path wd fw, w')
  unfolding watch_path
  watch_path-new path w w' n h = rw (n, ap (λ r. r.0) h, ap (λ r. r.1) h, watch_path) refl

  watch_path-old :
      (path : Str) (w : os.World)
      → wd_of path fw.path_to_wd ≡ some wd
      → watch_path os ino fd path fw w ≡ (true, fw, w)
  unfolding watch_path
  watch_path-old path w h = rw (h, watch_path) refl

  unwatch_path-old :
      (path : Str) (w : os.World)
      → wd_of path fw.path_to_wd ≡ some wd
      → unwatch_path os ino fd path fw w ≡ (true, leave path wd fw, ino.rm_watch w fd wd)
  unfolding unwatch_path
  unwatch_path-old path w h = rw (h, unwatch_path) refl

module _ (os : Os) (ino : Inotify os.World) (fd wd : ℕ) (p q : Str) (fw : Watcher)
    (w w1 w2 : os.World) where
  -- If the kernel gives one descriptor for two different paths that are not watched, as it does for
  -- two paths to one file, then after watching both and removing the second, the first has no
  -- watch: the descriptor leads nowhere, and yet watching the path again reports success and
  -- changes nothing.
  pub watch_path_stale :
      q ≢ p
      → wd_of p fw.path_to_wd ≡ none
      → wd_of q fw.path_to_wd ≡ none
      → ino.add_watch w fd p ino.watched_mask ≡ (some wd, w1)
      → ino.add_watch w1 fd q ino.watched_mask ≡ (some wd, w2)
      → let (_, fw1, v1) = watch_path os ino fd p fw w in
        let (_, fw2, v2) = watch_path os ino fd q fw1 v1 in
        let (_, fw3, v3) = unwatch_path os ino fd q fw2 v2 in
        (path_of wd fw3.wd_to_path ≡ none) × (watch_path os ino fd p fw3 v3 ≡ (true, fw3, v3))
  watch_path_stale n np nq h1 h2 =
      rw
        (
          watch_path-new os ino fd wd fw p w w1 np h1,
          watch_path-new os ino fd wd (enter p wd fw) q w1 w2 new_q h2,
          unwatch_path-old os ino fd wd (enter q wd (enter p wd fw)) q w2 old_q,
        )
        (gone, watch_path-old os ino fd wd last p _ kept)
    where
      last : Watcher
      last = leave q wd (enter q wd (enter p wd fw))

      new_q : wd_of q (enter p wd fw).path_to_wd ≡ none
      new_q = rw (wd_of-enter p q wd fw, str_eq_differ p q n) nq

      old_q : wd_of q (enter q wd (enter p wd fw)).path_to_wd ≡ some wd
      old_q = rw (wd_of-enter q q wd (enter p wd fw), str_eq_refl q) refl

      gone : path_of wd last.wd_to_path ≡ none
      gone = rw (path_of-leave q wd wd (enter q wd (enter p wd fw)), (==_iff wd wd).1 refl) refl

      kept : wd_of p last.path_to_wd ≡ some wd
      kept =
          rw
            (
              wd_of-leave q p wd (enter q wd (enter p wd fw)),
              str_eq_differ q p (λ e. n (sym e)),
              wd_of-enter q p wd (enter p wd fw),
              str_eq_differ q p (λ e. n (sym e)),
              wd_of-enter p p wd fw,
              str_eq_refl p,
            )
            refl
