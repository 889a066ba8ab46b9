-- ===== src/Watcher/Monitor.antt =====
-- The thread of `FileWatcher`, `monitorLoop`, a round at a time, and its interleaving with the methods that
-- the application calls from one thread.
pub mod Frames
pub mod Invariant
pub mod Safety
pub mod Descriptors
use secure_storage.Base.{
  ℕ, suc, ◌≡◌, Bool, true, false, not, ◌&&◌, ◌||◌, Option, none, some, List, [], ◌∷◌, ◌++◌, ◌==◌,
  if◌then◌else◌,
}
use secure_storage.Base.Text.{Str, Bytes}
use secure_storage.Os.{Os}
use secure_storage.Inotify.{Inotify, Event}
use secure_storage.Watcher.{Watcher, watcher, start, stop_begin, stop_end, add_watch, remove_watch}
use secure_storage.Watcher.Events.{WatchedEvent, find_path, is_none, process_at}
use secure_storage.Watcher.Events.Walk.{events_in}

-- What `poll` reports: an error with `errno == EINTR`, another error, or `POLLIN` at the two descriptors.
pub data Poll : Type 0 where
  interrupted failed : Poll
  ready : (events signal : Bool) → Poll

-- What `read` from the descriptor of inotify reports: `EINTR`, `EAGAIN` or `EWOULDBLOCK`, another error,
-- or a number of bytes and the buffer.
pub data Reading : Type 0 where
  again broken : Reading
  filled : ℕ → Bytes → Reading

-- Where the thread stands: before the test of the outer loop, in `poll`, in the inner loop with the
-- events that are left, or in `processInotifyEvent`, with the descriptor and the path that it looked up
-- under the first of its two locks. `absent` is a thread that was not started or was joined.
pub data Monitor : Type 0 where
  absent at_test in_poll ended : Monitor
  in_events : List Event → Monitor
  looked_up : Event → ℕ → Str → List Event → Monitor

-- A round after `poll` has returned: the object, and where the thread goes.
module _ {World : Type 0} (ino : Inotify World) where
  -- The fuel is enough for a header that is not empty, so `events_in` gives the events.
  unfoldable pub after_read : Reading → Watcher → Monitor × Watcher
  after_read again fw = (at_test, fw)
  after_read broken fw = (ended, record fw { is_running = false })
  after_read (filled len buffer) fw =
      if len == 0 then (at_test, fw) else elim (events_in ino (suc len) buffer len 0) [
        | none ↦ (at_test, fw)
        | some evs ↦ (in_events evs, fw)
      ]

  abbrev after_ready : Poll → Reading → Watcher → Monitor × Watcher
  after_ready interrupted reading fw = (at_test, fw)
  after_ready failed reading fw = (ended, record fw { is_running = false })
  after_ready (ready events true) reading fw = (ended, fw)
  after_ready (ready true false) reading fw = after_read reading fw
  after_ready (ready false false) reading fw = (at_test, fw)

  unfoldable pub after_poll : Poll → Reading → Watcher → Monitor × Watcher
  after_poll poll reading fw =
      if not fw.is_running then (ended, fw) else after_ready poll reading fw

  -- The inner loop up to the end of the first lock.
  unfoldable pub after_look : Event → List Event → Watcher → Monitor
  after_look ev evs fw =
      if is_none ev.wd && ino.has ev.mask ino.in_q_overflow
      then in_events evs
      else elim (find_path ev.wd fw) [
        | none ↦ in_events evs
        | some (wd, path) ↦ looked_up ev wd path evs
      ]

-- The thread of the application: in none of the methods, or in the `join` of `stop`.
pub data User : Type 0 where
  free joining : User

module _ (os : Os) (ino : Inotify os.World) where
  pub record System : Type 0 where
    pub fw : Watcher
    pub world : os.World
    pub monitor : Monitor
    pub user : User
    -- What the callback was given, the last event first.
    pub reports : List WatchedEvent

  abbrev pub initial : os.World → System
  initial w = record { fw = watcher; world = w; monitor = absent; user = free; reports = [] }

  -- A thread that was spawned stands before its loop.
  abbrev pub after_start : Watcher → Watcher → Monitor → Monitor
  after_start fw fw' m = if fw'.joinable && not fw.joinable then at_test else m

  -- `stop` with no thread to wait for.
  abbrev pub stopped_alone : System → os.World → Watcher × os.World
  stopped_alone s w = stop_end os ino (stop_begin os ino s.fw w).1 (stop_begin os ino s.fw w).2

  -- A step of either thread. What the kernel answers to `poll` and `read` is left open, and any other
  -- process may have changed the world before a call.
  pub data Step (s : System) : System → Type 0 where
    u_start :
        (w : os.World) (b : Bool) (fw' : Watcher) (w' : os.World)
        → s.user ≡ free
        → start os ino s.fw w ≡ some (b, fw', w')
        → Step s (record s { fw = fw'; world = w'; monitor = after_start s.fw fw' s.monitor })
    u_add :
        (path : Str) (w : os.World)
        → s.user ≡ free
        → Step s (record s {
          fw = (add_watch os ino path s.fw w).1;
          world = (add_watch os ino path s.fw w).2;
        })
    u_remove :
        (path : Str) (w : os.World)
        → s.user ≡ free
        → Step s (record s {
          fw = (remove_watch os ino path s.fw w).1;
          world = (remove_watch os ino path s.fw w).2;
        })
    -- `stop` that returns at once, that has no thread to wait for, or that waits for it.
    u_stop_again : (w : os.World) → s.user ≡ free → (stop_begin os ino s.fw w).0 ≡ true → Step s s
    u_stop_alone :
        (w : os.World)
        → s.user ≡ free
        → (stop_begin os ino s.fw w).0 ≡ false
        → s.fw.joinable ≡ false
        → Step s (record s { fw = (stopped_alone s w).0; world = (stopped_alone s w).1 })
    u_stop_wait :
        (w : os.World)
        → s.user ≡ free
        → (stop_begin os ino s.fw w).0 ≡ false
        → s.fw.joinable ≡ true
        → Step s (record s {
          fw = (stop_begin os ino s.fw w).1;
          world = (stop_begin os ino s.fw w).2;
          user = joining;
        })
    u_joined :
        (w : os.World)
        → s.user ≡ joining
        → s.monitor ≡ ended
        → Step s (record s {
          fw = (stop_end os ino s.fw w).0;
          world = (stop_end os ino s.fw w).1;
          monitor = absent;
          user = free;
        })
    m_test :
        s.monitor ≡ at_test
        → Step s (record s { monitor = if s.fw.is_running then in_poll else ended })
    m_poll :
        (poll : Poll) (reading : Reading)
        → s.monitor ≡ in_poll
        → Step s (record s {
          monitor = (after_poll ino poll reading s.fw).0;
          fw = (after_poll ino poll reading s.fw).1;
        })
    m_events_done : s.monitor ≡ in_events [] → Step s (record s { monitor = at_test })
    m_event :
        (ev : Event) (evs : List Event)
        → s.monitor ≡ in_events (ev ∷ evs)
        → Step s (record s { monitor = after_look ino ev evs s.fw })
    m_handle :
        (ev : Event) (wd : ℕ) (path : Str) (evs : List Event) (watched : WatchedEvent)
        (fw' : Watcher)
        → s.monitor ≡ looked_up ev wd path evs
        → process_at ino ev wd path s.fw ≡ some (watched, fw')
        → Step s (record s { monitor = in_events evs; fw = fw'; reports = watched ∷ s.reports })

  pub data Reach (w : os.World) : System → Type 0 where
    begun : Reach w (initial w)
    later : {s t : System} → Reach w s → Step s t → Reach w t
