-- ===== src/Watcher/Maps/Named.antt =====
-- The paths in the maps of `FileWatcher` are not empty.
use secure_storage.Base.{ℕ, ◌≡◌, ◌≢◌, ◌∙◌, inl, inr, some, [], ◌==◌, Bool-cases, Option-cases}
use secure_storage.Base.Text.{Str}
use secure_storage.Os.{Os}
use secure_storage.Inotify.{Inotify}
use secure_storage.Watcher.{
  Watcher, path_of, wd_of, enter, leave, watch_path, unwatch_path, add_watch, remove_watch,
}
use secure_storage.Watcher.Maps.{
  path_of-enter, path_of-leave, add_watch-cases, remove_watch-cases, empty-false,
}

-- No path that has a descriptor is empty.
pub record IsNamed (fw : Watcher) : Type 0 where
  pub not_empty : (wd : ℕ) (path : Str) → path_of wd fw.wd_to_path ≡ some path → path ≢ []

pub IsNamed-same : (fw fw' : Watcher) → fw'.wd_to_path ≡ fw.wd_to_path → IsNamed fw → IsNamed fw'
IsNamed-same fw fw' e n = record { not_empty = λ wd path h. n.not_empty wd path (rw e at h) }

module _ (path : Str) (wd : ℕ) (fw : Watcher) (named : IsNamed fw) where
  enter-IsNamed : path ≢ [] → IsNamed (enter path wd fw)
  enter-IsNamed n = record {
    not_empty = λ j q h. elim (Bool-cases (j == wd)) [
      | inl e ↦ let same : path ≡ q = cc (h, path_of-enter path wd j fw, e) in λ k. n (same ∙ k)
      | inr e ↦ named.not_empty j q (cc (h, path_of-enter path wd j fw, e))
    ];
  }

  pub leave-IsNamed : IsNamed (leave path wd fw)
  leave-IsNamed = record {
    not_empty = λ j q h. elim (Bool-cases (j == wd)) [
      | inl e ↦ absurd (cc (h, path_of-leave path wd j fw, e))
      | inr e ↦ named.not_empty j q (cc (h, path_of-leave path wd j fw, e))
    ];
  }

module _ (os : Os) (ino : Inotify os.World) (path : Str) (fw : Watcher) (w : os.World) where
  watch_path-IsNamed :
      (fd : ℕ) → IsNamed fw → path ≢ [] → IsNamed (watch_path os ino fd path fw w).1
  unfolding watch_path
  watch_path-IsNamed fd n some_path = elim (Option-cases (wd_of path fw.path_to_wd)) [
    | inr (wd, e) ↦ rw (e, watch_path) n
    | inl e ↦ elim (Option-cases (ino.add_watch w fd path ino.watched_mask).0) [
      | inl f ↦ rw (e, f, watch_path) n
      | inr (wd, f) ↦ rw (e, f, watch_path) (enter-IsNamed path wd fw n some_path)
    ]
  ]

  pub add_watch-IsNamed : IsNamed fw → IsNamed (add_watch os ino path fw w).1
  add_watch-IsNamed n = elim (add_watch-cases os ino path fw w) [
    | inl e ↦ rw e n
    | inr (fd, _, is, e) ↦ rw e (watch_path-IsNamed fd n (empty-false path is))
  ]

  unwatch_path-IsNamed : (fd : ℕ) → IsNamed fw → IsNamed (unwatch_path os ino fd path fw w).1
  unfolding unwatch_path
  unwatch_path-IsNamed fd n = elim (Option-cases (wd_of path fw.path_to_wd)) [
    | inl e ↦ rw (e, unwatch_path) n
    | inr (wd, e) ↦ rw (e, unwatch_path) (leave-IsNamed path wd fw n)
  ]

  pub remove_watch-IsNamed : IsNamed fw → IsNamed (remove_watch os ino path fw w).1
  remove_watch-IsNamed n = elim (remove_watch-cases os ino path fw w) [
    | inl e ↦ rw e n
    | inr (fd, _, e) ↦ rw e (unwatch_path-IsNamed fd n)
  ]
