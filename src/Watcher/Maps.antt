-- ===== src/Watcher/Maps.antt =====
-- The two maps of `FileWatcher`, from descriptors of watches to paths and back.
pub mod Named
use secure_storage.Base.{
  ℕ, ◌≡◌, ◌≢◌, refl, sym, ap, ◌∙◌, ◌⊎◌, inl, inr, false, not, ◌&&◌, ◌||◌, none, some, [], arith,
  ◌==◌, ==_iff, if◌then◌else◌, Bool-cases, Option-cases,
}
use secure_storage.Base.Text.{Str, empty, str_eq, str_eq_iff}
use secure_storage.Base.Dict.{get-erase, get-set}
use secure_storage.Os.{Os}
use secure_storage.FileUtil.{path_exists}
use secure_storage.Inotify.{Inotify}
use secure_storage.Watcher.{
  Watcher, path_of, wd_of, enter, leave, watch_path, unwatch_path, add_watch, remove_watch,
}

-- What a descriptor leads to leads back to it, and is not empty.
pub record IsPaired (fw : Watcher) : Type 0 where
  pub back :
      (wd : ℕ) (path : Str)
      → path_of wd fw.wd_to_path ≡ some path
      → wd_of path fw.path_to_wd ≡ some wd
  pub not_empty : (wd : ℕ) (path : Str) → path_of wd fw.wd_to_path ≡ some path → path ≢ []

-- The two maps are all that it depends on.
pub IsPaired-same :
    (fw fw' : Watcher)
    → fw'.wd_to_path ≡ fw.wd_to_path
    → fw'.path_to_wd ≡ fw.path_to_wd
    → IsPaired fw
    → IsPaired fw'
IsPaired-same fw fw' e f p = record {
  back = λ wd path h. rw f (p.back wd path (rw e at h));
  not_empty = λ wd path h. p.not_empty wd path (rw e at h);
}

pub path_of-enter :
    (path : Str) (wd j : ℕ) (fw : Watcher)
    → path_of j (enter path wd fw).wd_to_path
      ≡ (if j == wd then some path else path_of j fw.wd_to_path)
unfolding enter
path_of-enter path wd j fw = get-set ◌==◌ ==_iff j wd path fw.wd_to_path

pub wd_of-enter :
    (path q : Str) (wd : ℕ) (fw : Watcher)
    → wd_of q (enter path wd fw).path_to_wd
      ≡ (if str_eq q path then some wd else wd_of q fw.path_to_wd)
unfolding enter
wd_of-enter path q wd fw = get-set str_eq str_eq_iff q path wd fw.path_to_wd

pub path_of-leave :
    (path : Str) (wd j : ℕ) (fw : Watcher)
    → path_of j (leave path wd fw).wd_to_path ≡ (if j == wd then none else path_of j fw.wd_to_path)
unfolding leave
path_of-leave path wd j fw = get-erase ◌==◌ ==_iff j wd fw.wd_to_path

pub wd_of-leave :
    (path q : Str) (wd : ℕ) (fw : Watcher)
    → wd_of q (leave path wd fw).path_to_wd
      ≡ (if str_eq q path then none else wd_of q fw.path_to_wd)
unfolding leave
wd_of-leave path q wd fw = get-erase str_eq str_eq_iff q path fw.path_to_wd

pub str_eq_differ : (path q : Str) → q ≢ path → str_eq q path ≡ false
str_eq_differ path q n = elim (Bool-cases (str_eq q path)) [
  | inl e ↦ absurd (n ((str_eq_iff q path).0 e))
  | inr e ↦ e
]

module _ (path : Str) (wd : ℕ) (fw : Watcher) (p : IsPaired fw) where
  -- What is in the map after an entry is the entry, or was there.
  enter-cases :
      (j : ℕ) (q : Str)
      → path_of j (enter path wd fw).wd_to_path ≡ some q
      → ((j ≡ wd) × (q ≡ path)) ⊎ (path_of j fw.wd_to_path ≡ some q)
  enter-cases j q h = elim (Bool-cases (j == wd)) [
    | inl e ↦ inl ((==_iff j wd).0 e, cc (h, path_of-enter path wd j fw, e))
    | inr e ↦ inr (cc (h, path_of-enter path wd j fw, e))
  ]

  -- A new path is entered with any descriptor, also with one that another path has.
  pub enter-IsPaired : path ≢ [] → wd_of path fw.path_to_wd ≡ none → IsPaired (enter path wd fw)
  enter-IsPaired n new = record {
    back = λ j q h. elim (enter-cases j q h) [
      | inl (e, f) ↦ rw (e, f, wd_of-enter path path wd fw, (str_eq_iff path path).1 refl) refl
      | inr old ↦
          let was = p.back j q old in
          rw
            (
              wd_of-enter path q wd fw,
              str_eq_differ path q (λ e. cc (was, new, ap (λ t. wd_of t fw.path_to_wd) e)),
            )
            was
    ];
    not_empty = λ j q h. elim (enter-cases j q h) [
      | inl (e, f) ↦ λ k. n (sym f ∙ k)
      | inr old ↦ p.not_empty j q old
    ];
  }

  leave-cases :
      (j : ℕ) (q : Str)
      → path_of j (leave path wd fw).wd_to_path ≡ some q
      → (j ≢ wd) × (path_of j fw.wd_to_path ≡ some q)
  leave-cases j q h = elim (Bool-cases (j == wd)) [
    | inl e ↦ absurd (cc (h, path_of-leave path wd j fw, e))
    | inr e ↦ (λ k. cc (e, (==_iff j wd).1 k), cc (h, path_of-leave path wd j fw, e))
  ]

  -- A path leaves with its own descriptor.
  pub leave-IsPaired : wd_of path fw.path_to_wd ≡ some wd → IsPaired (leave path wd fw)
  leave-IsPaired own = record {
    back = λ j q h.
        let (n, old) = leave-cases j q h in
        let was = p.back j q old in
        rw
          (
            wd_of-leave path q wd fw,
            str_eq_differ path q (λ e. n (cc (was, own, ap (λ t. wd_of t fw.path_to_wd) e))),
          )
          was;
    not_empty = λ j q h. p.not_empty j q (leave-cases j q h).1;
  }

pub empty-false : (path : Str) → empty path ≡ false → path ≢ []
empty-false path h e = cc (h, ap empty e)

module _ (os : Os) (ino : Inotify os.World) (path : Str) (fw : Watcher) (w : os.World) where
  -- `addWatch` changes nothing, or comes to the watch of a path that is not empty.
  pub add_watch-cases :
      (add_watch os ino path fw w ≡ (false, fw, w))
      ⊎ ((fd : ℕ) × (fw.inotify_fd ≡ some fd)
          × (empty path ≡ false)
          × (add_watch os ino path fw w ≡ watch_path os ino fd path fw w))
  unfolding add_watch
  add_watch-cases = elim (Option-cases fw.inotify_fd) [
    | inl e ↦ inl (ground arith)
    | inr (fd, e) ↦
        elim (Bool-cases (fw.is_running && not (empty path || not (path_exists os w path)))) [
          | inl g ↦ inr (fd, e, ground arith, ground arith)
          | inr g ↦ inl (ground arith)
        ]
  ]

  -- `removeWatch` changes nothing, or comes to the watch of a path.
  pub remove_watch-cases :
      (remove_watch os ino path fw w ≡ (false, fw, w))
      ⊎ ((fd : ℕ) × (fw.inotify_fd ≡ some fd)
          × (remove_watch os ino path fw w ≡ unwatch_path os ino fd path fw w))
  unfolding remove_watch
  remove_watch-cases = elim (Option-cases fw.inotify_fd) [
    | inl e ↦ inl (ground arith)
    | inr (fd, e) ↦ elim (Bool-cases (fw.is_running && not (empty path))) [
      | inl g ↦ inr (fd, e, ground arith)
      | inr g ↦ inl (ground arith)
    ]
  ]

  watch_path-IsPaired :
      (fd : ℕ) → IsPaired fw → path ≢ [] → IsPaired (watch_path os ino fd path fw w).1
  unfolding watch_path
  watch_path-IsPaired fd p n = elim (Option-cases (wd_of path fw.path_to_wd)) [
    | inr (wd, e) ↦ rw (e, watch_path) p
    | inl e ↦ elim (Option-cases (ino.add_watch w fd path ino.watched_mask).0) [
      | inl f ↦ rw (e, f, watch_path) p
      | inr (wd, f) ↦ rw (e, f, watch_path) (enter-IsPaired path wd fw p n e)
    ]
  ]

  pub add_watch-IsPaired : IsPaired fw → IsPaired (add_watch os ino path fw w).1
  add_watch-IsPaired p = elim add_watch-cases [
    | inl e ↦ rw e p
    | inr (fd, _, n, e) ↦ rw e (watch_path-IsPaired fd p (empty-false path n))
  ]

  unwatch_path-IsPaired : (fd : ℕ) → IsPaired fw → IsPaired (unwatch_path os ino fd path fw w).1
  unfolding unwatch_path
  unwatch_path-IsPaired fd p = elim (Option-cases (wd_of path fw.path_to_wd)) [
    | inl e ↦ rw (e, unwatch_path) p
    | inr (wd, e) ↦ rw (e, unwatch_path) (leave-IsPaired path wd fw p e)
  ]

  pub remove_watch-IsPaired : IsPaired fw → IsPaired (remove_watch os ino path fw w).1
  remove_watch-IsPaired p = elim remove_watch-cases [
    | inl e ↦ rw e p
    | inr (fd, _, e) ↦ rw e (unwatch_path-IsPaired fd p)
  ]
