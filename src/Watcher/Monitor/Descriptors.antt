-- ===== src/Watcher/Monitor/Descriptors.antt =====
-- The descriptors of `FileWatcher` while its thread uses them.
use secure_storage.Base.{
  Bool, ℕ, ◌≡◌, ◌≢◌, ap, subst, inl, inr, true, none, some, arith, Option-cases,
}
use secure_storage.Base.Text.{Str}
use secure_storage.Os.{Os}
use secure_storage.Inotify.{Inotify}
use secure_storage.Watcher.{
  Watcher, start, signal_stop, stop_begin, add_watch, remove_watch, watch_path, unwatch_path, wd_of,
}
use secure_storage.Watcher.Maps.{add_watch-cases, remove_watch-cases}
use secure_storage.Watcher.Monitor.{
  Monitor, System, Step, Reach, u_start, u_add, u_remove, u_stop_again, u_stop_alone, u_stop_wait,
  u_joined, m_test, m_poll, m_events_done, m_event, m_handle,
}
use secure_storage.Watcher.Monitor.Invariant.{Inv, is_active, is_present}
use secure_storage.Watcher.Monitor.Invariant.Steps.{Reach-Inv}

module _ (os : Os) (ino : Inotify os.World) (IsOpen : os.World → ℕ → Type 0) where
  -- Writing to a descriptor, and adding or removing a watch, close no descriptor.
  pub record KeepsOpen : Type 0 where
    pub signal_keeps : (w : os.World) (fd q : ℕ) → IsOpen w q → IsOpen (ino.signal w fd) q
    pub add_keeps :
        (w : os.World) (fd : ℕ) (path : Str) (mask q : ℕ)
        → IsOpen w q
        → IsOpen (ino.add_watch w fd path mask).1 q
    pub rm_keeps : (w : os.World) (fd wd q : ℕ) → IsOpen w q → IsOpen (ino.rm_watch w fd wd) q

  module _ (K : KeepsOpen) (q : ℕ) where
    watch_path-keeps :
        (fd : ℕ) (path : Str) (fw : Watcher) (w : os.World)
        → IsOpen w q
        → IsOpen (watch_path os ino fd path fw w).2 q
    unfolding watch_path
    watch_path-keeps fd path fw w o = elim (Option-cases (wd_of path fw.path_to_wd)) [
      | inr (wd, e) ↦ rw (e, watch_path) o
      | inl e ↦ elim (Option-cases (ino.add_watch w fd path ino.watched_mask).0) [
        | inl f ↦ rw (e, f, watch_path) (K.add_keeps w fd path ino.watched_mask q o)
        | inr (wd, f) ↦ rw (e, f, watch_path) (K.add_keeps w fd path ino.watched_mask q o)
      ]
    ]

    unwatch_path-keeps :
        (fd : ℕ) (path : Str) (fw : Watcher) (w : os.World)
        → IsOpen w q
        → IsOpen (unwatch_path os ino fd path fw w).2 q
    unfolding unwatch_path
    unwatch_path-keeps fd path fw w o = elim (Option-cases (wd_of path fw.path_to_wd)) [
      | inl e ↦ rw (e, unwatch_path) o
      | inr (wd, e) ↦ rw (e, unwatch_path) (K.rm_keeps w fd wd q o)
    ]

    add_watch-keeps :
        (path : Str) (fw : Watcher) (w : os.World)
        → IsOpen w q
        → IsOpen (add_watch os ino path fw w).2 q
    add_watch-keeps path fw w o = elim (add_watch-cases os ino path fw w) [
      | inl e ↦ rw e o
      | inr (fd, _, _, e) ↦ rw e (watch_path-keeps fd path fw w o)
    ]

    remove_watch-keeps :
        (path : Str) (fw : Watcher) (w : os.World)
        → IsOpen w q
        → IsOpen (remove_watch os ino path fw w).2 q
    remove_watch-keeps path fw w o = elim (remove_watch-cases os ino path fw w) [
      | inl e ↦ rw e o
      | inr (fd, _, e) ↦ rw e (unwatch_path-keeps fd path fw w o)
    ]

    signal_stop-keeps :
        (fw : Watcher) (w : os.World) → IsOpen w q → IsOpen (signal_stop os ino fw w) q
    unfolding signal_stop
    signal_stop-keeps fw w o = elim (Option-cases fw.pipe_write) [
      | inl e ↦ rw (e, signal_stop) o
      | inr (fd, e) ↦ rw (e, signal_stop) (K.signal_keeps w fd q o)
    ]

    stop_begin-keeps :
        (fw : Watcher) (w : os.World) → IsOpen w q → IsOpen (stop_begin os ino fw w).2 q
    unfolding stop_begin
    stop_begin-keeps fw w o = ground (arith, o, signal_stop-keeps fw w o)

module _ (os : Os) (ino : Inotify os.World) where
  -- A `start` of an object that runs, or that was stopped, makes no call.
  start-same :
      (fw fw' : Watcher) (w w' : os.World) (b : Bool)
      → fw.is_running ≡ true
      → start os ino fw w ≡ some (b, fw', w')
      → w ≡ w'
  unfolding start
  start-same fw fw' w w' b on h = ground arith

  -- The world in which a step makes its calls.
  abbrev pub before : {s t : System os ino} → Step os ino s t → os.World
  before (u_start w b fw' w' u h) = w
  before (u_add path w u) = w
  before (u_remove path w u) = w
  before {s = s} (u_stop_again w u h) = s.world
  before (u_stop_alone w u h j) = w
  before (u_stop_wait w u h j) = w
  before (u_joined w u e) = w
  before {s = s} (m_test e) = s.world
  before {s = s} (m_poll poll reading e) = s.world
  before {s = s} (m_events_done e) = s.world
  before {s = s} (m_event ev evs e) = s.world
  before {s = s} (m_handle ev wd path evs watched fw' e h) = s.world

  active-present : (m : Monitor) → is_active m ≡ true → is_present m ≡ true
  active-present m h = ground arith

  Step-keeps :
      (IsOpen : os.World → ℕ → Type 0) (q : ℕ) {s t : System os ino}
      → KeepsOpen os ino IsOpen
      → Inv s.fw s.monitor s.user
      → is_active s.monitor ≡ true
      → (st : Step os ino s t) → IsOpen (before st) q
      → IsOpen t.world q
  Step-keeps IsOpen q {s = s} K i a (u_start w b fw' w' u h) o =
      subst (λ v. IsOpen v q) (start-same s.fw fw' w w' b (i.running a u) h) o
  Step-keeps IsOpen q {s = s} K i a (u_add path w u) o =
      add_watch-keeps os ino IsOpen K q path s.fw w o
  Step-keeps IsOpen q {s = s} K i a (u_remove path w u) o =
      remove_watch-keeps os ino IsOpen K q path s.fw w o
  Step-keeps IsOpen q K i a (u_stop_again w u h) o = o
  Step-keeps IsOpen q {s = s} K i a (u_stop_alone w u h j) o =
      absurd (cc (j, i.thread, active-present s.monitor a))
  Step-keeps IsOpen q {s = s} K i a (u_stop_wait w u h j) o =
      stop_begin-keeps os ino IsOpen K q s.fw w o
  Step-keeps IsOpen q K i a (u_joined w u e) o = absurd (cc (a, ap is_active e))
  Step-keeps IsOpen q K i a (m_test e) o = o
  Step-keeps IsOpen q K i a (m_poll poll reading e) o = o
  Step-keeps IsOpen q K i a (m_events_done e) o = o
  Step-keeps IsOpen q K i a (m_event ev evs e) o = o
  Step-keeps IsOpen q K i a (m_handle ev wd path evs watched fw' e h) o = o

  -- For any account of which descriptors are open in a world, by which writing to a descriptor, and
  -- adding or removing a watch, close none: in every state that the application and the thread can
  -- reach together, while the thread is in its loop, the object has the descriptor of inotify and
  -- both ends of the pipe, and no step of either, `stop` up to its wait among them, closes a
  -- descriptor that was open as the step made its calls.
  pub monitor-Open :
      {w : os.World} {s : System os ino} (IsOpen : os.World → ℕ → Type 0)
      → KeepsOpen os ino IsOpen
      → Reach os ino w s
      → is_active s.monitor ≡ true
      → (s.fw.inotify_fd ≢ none)
        × (s.fw.pipe_read ≢ none)
        × (s.fw.pipe_write ≢ none)
        × ((t : System os ino) (st : Step os ino s t) (q : ℕ)
            → IsOpen (before st) q
            → IsOpen t.world q)
  monitor-Open IsOpen K r a =
      let i = Reach-Inv os ino r in
      let (fd, read_end, write_end) = i.open_fds a in
      (fd, read_end, write_end, λ t st q. Step-keeps IsOpen q K i a st)
