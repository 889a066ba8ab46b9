-- ===== src/Manager/Construction.antt =====
-- What the constructor of `SecureStorageManager` leaves.
use secure_storage.Base.{
  ◌≡◌, ◌≢◌, ◌↔◌, refl, sym, ap, ◌∙◌, ◌⊎◌, inl, inr, true, false, Bool, none, some, [], arith,
  Bool-cases, Option-cases,
}
use secure_storage.Base.Text.{Str}
use secure_storage.Error.{success}
use secure_storage.Os.{Os}
use secure_storage.FileUtil.{create_directories}
use secure_storage.Inotify.{Inotify}
use secure_storage.Crypto.{Mbedtls, IsLawful}
use secure_storage.Store.{SecureStore, secure_store}
use secure_storage.Store.Lifecycle.{
  IsReady, with_separator, derived, secure_store-IsSound, secure_store-initialized_iff,
}
use secure_storage.Watcher.{
  Watcher, watcher, start, start_with, spawn_monitor, set_nonblocking, stop, add_watch, wd_of,
}
use secure_storage.Watcher.Watches.{add_watch_lem}
use secure_storage.Watcher.Monitor.Frames.{add_watch-Frame}
use secure_storage.Manager.{
  ManagerImpl, Manager, no_parts, is_initialized, reset_watcher, watch_root, manager_impl, manager,
}

-- The parts that an object holds: a store that is ready, or none.
pub record IsManaged (mb : Mbedtls) (i : ManagerImpl mb) : Type 0 where
  pub store :
      ((i.is_manager_initialized ≡ false) × (i.secure_store_instance ≡ none))
      ⊎ ((i.is_manager_initialized ≡ true)
          × ((s : SecureStore mb) × (i.secure_store_instance ≡ some s) × IsReady mb s))

abbrev pub IsManagedOrMoved : (mb : Mbedtls) → Manager mb → Type 0
IsManagedOrMoved mb m =
    (m.impl ≡ none) ⊎ ((i : ManagerImpl mb) × (m.impl ≡ some i) × IsManaged mb i)

-- A watcher that runs, and watches the path.
pub record IsWatching (path : Str) (fw : Watcher) : Type 0 where
  pub is_running : fw.is_running ≡ true
  pub watched : wd_of path fw.path_to_wd ≢ none

module _ (os : Os) (ino : Inotify os.World) where
  -- `start` of a new object returns, and reports whether the watcher runs.
  pub start-fresh :
      (w : os.World)
      → (b : Bool) × (fw : Watcher) × (w' : os.World) × (start os ino watcher w ≡ some (b, fw, w'))
        × (fw.is_running ≡ b)
  unfolding start start_with spawn_monitor set_nonblocking
  start-fresh w = elim (Option-cases (start os ino watcher w)) [
    | inl e ↦ absurd (ground arith)
    | inr ((b, fw, w'), e) ↦ (b, fw, w', e, ground arith)
  ]

module _ (os : Os) (ino : Inotify os.World) (monitor_ends : Watcher → os.World → Watcher × os.World)
    (mb : Mbedtls) where
  -- How the start of the watcher ends, with the store untouched.
  abbrev Started : Str → ManagerImpl mb → ManagerImpl mb → Type 0
  Started root i i' =
      (i'.secure_store_instance ≡ i.secure_store_instance)
      × (i'.is_manager_initialized ≡ i.is_manager_initialized)
      × (((i'.is_file_watcher_active ≡ i.is_file_watcher_active)
            × (i'.file_watcher_instance ≡ none))
          ⊎ ((i'.is_file_watcher_active ≡ true)
              × ((fw : Watcher) × (i'.file_watcher_instance ≡ some fw) × IsWatching root fw)))

  abbrev RootWatched : Str → ManagerImpl mb → os.World → Type 0
  RootWatched root i w =
      (i' : ManagerImpl mb) × (w' : os.World) × (watch_root os ino monitor_ends mb root i w
        ≡ some (i', w'))
      × Started root i i'

  watch_root-started :
      (root : Str) (i : ManagerImpl mb) (w w1 : os.World) (fw : Watcher)
      → start os ino watcher w ≡ some (true, fw, w1)
      → fw.is_running ≡ true
      → RootWatched root i w
  unfolding watch_root
  watch_root-started root i w w1 fw e on = elim (Bool-cases added) [
    | inr f ↦ (
      without,
      reset_watcher os ino monitor_ends mb (some stopped.0) stopped.1,
      rw (e, f, watch_root) refl,
      (refl, refl, inl (refl, refl)),
    )
    | inl t ↦ elim (add_watch_lem os ino root fw w1) [
      | inr (f, _) ↦ absurd (cc (f, t))
      | inl (_, there, _) ↦ (
        watching,
        world,
        rw (e, t, watch_root) refl,
        (
          refl,
          refl,
          inr (
            refl,
            (
              after,
              refl,
              record {
                is_running = (add_watch-Frame os ino root fw w1).is_running ∙ on;
                watched = there;
              },
            ),
          ),
        ),
      )
    ]
  ]
    where
      added : Bool
      added = (add_watch os ino root fw w1).0

      after : Watcher
      after = (add_watch os ino root fw w1).1

      world : os.World
      world = (add_watch os ino root fw w1).2

      stopped : Watcher × os.World
      stopped = stop os ino monitor_ends after world

      without : ManagerImpl mb
      without = record i { file_watcher_instance = none }

      watching : ManagerImpl mb
      watching = record i { file_watcher_instance = some after; is_file_watcher_active = true }

  watch_root-failed :
      (root : Str) (i : ManagerImpl mb) (w w1 : os.World) (fw : Watcher)
      → start os ino watcher w ≡ some (false, fw, w1)
      → RootWatched root i w
  unfolding watch_root
  watch_root-failed root i w w1 fw e = (
    record i { file_watcher_instance = none },
    reset_watcher os ino monitor_ends mb (some fw) w1,
    rw (e, watch_root) refl,
    (refl, refl, inl (refl, refl)),
  )

  pub watch_root_lem : (root : Str) (i : ManagerImpl mb) (w : os.World) → RootWatched root i w
  watch_root_lem root i w =
      let (b, fw, w1, e, on) = start-fresh os ino w in
      elim (Bool-cases b) [
        | inl t ↦ watch_root-started root i w w1 fw (rw t at e) (on ∙ t)
        | inr f ↦ watch_root-failed root i w w1 fw (rw f at e)
      ]

  module _ (L : IsLawful mb) (root serial : Str) (entropy : mb.Rng) (w : os.World) where
    abbrev pub new_store : SecureStore mb × os.World
    new_store = secure_store os mb root serial entropy w

    abbrev pub ActiveWatcher : ManagerImpl mb → Type 0
    ActiveWatcher i =
        ((i.is_file_watcher_active ≡ false) × (i.file_watcher_instance ≡ none))
        ⊎ ((i.is_file_watcher_active ≡ true)
            × ((fw : Watcher) × (i.file_watcher_instance ≡ some fw) × IsWatching root fw))

    -- The constructor returns. It leaves a manager that is initialised with a store that is ready,
    -- or one that is not initialised and has no store. And either the watcher is reported as
    -- active, and then it runs and watches the root path that was given, or it is not, and then
    -- there is none.
    pub manager-IsManaged :
        (i : ManagerImpl mb) × (w' : os.World) × (manager os ino monitor_ends mb root serial entropy
            w
          ≡ some (record { impl = some i }, w'))
        × IsManaged mb i
        × (i.is_manager_initialized ≡ new_store.0.initialized)
        × ActiveWatcher i
    unfolding manager manager_impl
    manager-IsManaged = elim (secure_store-IsSound os mb L root serial entropy w) [
      | inl off ↦ (
        no_parts mb,
        new_store.1,
        rw (off, manager) refl,
        record { store = inl (refl, refl) },
        sym off,
        inl (refl, refl),
      )
      | inr on ↦
          let (i, w', e, (same_s, same_i, act)) = watch_root_lem root initialised new_store.1 in
          (
            i,
            w',
            rw (on.initialized, e, manager) refl,
            record { store = inr (same_i, (new_store.0, same_s, on)) },
            same_i ∙ sym on.initialized,
            act,
          )
    ]
      where
        initialised : ManagerImpl mb
        initialised = record (no_parts mb) {
          secure_store_instance = some new_store.0;
          is_manager_initialized = true;
        }

    -- A new manager reports that it is initialised exactly if neither argument is empty, the
    -- directory of the root path could be made, and the master key could be derived, whatever
    -- becomes of the watcher.
    pub is_initialized-manager_iff :
        (m : Manager mb) (w' : os.World)
        → manager os ino monitor_ends mb root serial entropy w ≡ some (m, w')
        → (is_initialized mb m ≡ true) ↔ (
            (root ≢ [])
            × (serial ≢ [])
            × ((create_directories os (with_separator root) w).0 ≡ success)
            × ((derived os mb L serial).0 ≡ success))
    unfolding is_initialized
    is_initialized-manager_iff m w' h =
        let (i, w1, e, _, same, _) = manager-IsManaged in
        let got = secure_store-initialized_iff os mb L root serial entropy w in
        let at_m : is_initialized mb m ≡ new_store.0.initialized =
          rw (← same) (ap (is_initialized mb) (made i w1 e)) in
        (λ t. got.0 (sym at_m ∙ t), λ t. at_m ∙ got.1 t)
      where
        made :
            (i : ManagerImpl mb) (w1 : os.World)
            → manager os ino monitor_ends mb root serial entropy w
              ≡ some (record { impl = some i }, w1)
            → m ≡ record { impl = some i }
        made i w1 e = cc (h, e)
