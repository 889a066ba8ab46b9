-- ===== src/Watcher/Monitor/Invariant.antt =====
-- What holds in every state that the two threads of `FileWatcher` reach.
pub mod Methods
pub mod Thread
pub mod Steps
use secure_storage.Base.{
  ℕ, suc, ◌≡◌, ◌≢◌, refl, sym, ap, subst, ◌∙◌, inl, inr, Bool, true, false, ◌&&◌, none, some, List,
  [], ◌∷◌, arith, ◌==◌, if◌then◌else◌, Bool-cases, Option-cases,
}
use secure_storage.Base.Text.{Str}
use secure_storage.Os.{Os}
use secure_storage.Inotify.{Inotify, Event}
use secure_storage.Watcher.{Watcher, watcher, start, stop_begin, stop_end, leave}
use secure_storage.Watcher.Maps.Named.{
  IsNamed, IsNamed-same, leave-IsNamed, add_watch-IsNamed, remove_watch-IsNamed,
}
use secure_storage.Watcher.Events.{WatchedEvent, is_none, process_at}
use secure_storage.Watcher.Events.Walk.{events_in, process_at_lem, find_path-cases}
use secure_storage.Watcher.Monitor.{
  Poll, interrupted, failed, ready, Reading, again, broken, filled, Monitor, absent, at_test,
  in_poll, ended, in_events, looked_up, after_look, User, free, joining, after_read, after_ready,
  after_poll, System, after_start, Step, Reach, u_start, u_add, u_remove, u_stop_again,
  u_stop_alone, u_stop_wait, u_joined, m_test, m_poll, m_events_done, m_event, m_handle, begun,
  later,
}
use secure_storage.Watcher.Monitor.Frames.{
  process_at-Frame, Frame, Closed, path_of-nil, add_watch-Frame, remove_watch-Frame, start-maps,
  start-cases, stop_end-Closed, stop_end-IsNamed, stop_begin-cases,
}

-- The thread can use its descriptors.
abbrev pub is_active : Monitor → Bool
is_active absent = false
is_active ended = false
is_active _ = true

abbrev pub is_present : Monitor → Bool
is_present absent = false
is_present _ = true

-- The thread has not looked up a path.
abbrev pub is_idle : Monitor → Bool
is_idle (looked_up ev wd path evs) = false
is_idle _ = true

-- The object, the thread and the user fit together.
pub record Inv (fw : Watcher) (m : Monitor) (u : User) : Type 0 where
  pub named : IsNamed fw
  pub looked :
      (ev : Event) (wd : ℕ) (path : Str) (evs : List Event)
      → m ≡ looked_up ev wd path evs
      → path ≢ []
  pub thread : fw.joinable ≡ is_present m
  pub open_fds :
      is_active m ≡ true → (fw.inotify_fd ≢ none) × (fw.pipe_read ≢ none) × (fw.pipe_write ≢ none)
  pub running : is_active m ≡ true → u ≡ free → fw.is_running ≡ true
  pub waiting : u ≡ joining → (fw.is_running ≡ false) × (fw.joinable ≡ true)
  pub closed : fw.stopped_by_user ≡ true → Closed fw × (u ≡ free)

pub begun-Inv : Inv watcher absent free
begun-Inv = record {
  named = record { not_empty = λ wd path h. absurd (path_of-nil wd path h) };
  looked = λ ev wd path evs e. cc;
  thread = refl;
  open_fds = λ a. cc;
  running = λ a e. cc;
  waiting = λ e. cc;
  closed = λ e. cc;
}

pub Inv-Frame :
    (fw fw' : Watcher) (m : Monitor) (u : User)
    → Frame fw fw'
    → IsNamed fw'
    → Inv fw m u
    → Inv fw' m u
Inv-Frame fw fw' m u f p i = record {
  named = p;
  looked = i.looked;
  thread = f.joinable ∙ i.thread;
  open_fds = λ a. ground (arith, i.open_fds a);
  running = λ a e. f.is_running ∙ i.running a e;
  waiting = λ e. ground (arith, i.waiting e);
  closed = λ e. ground (arith, i.closed);
}

pub absent-thread : (m : Monitor) → is_present m ≡ false → m ≡ absent
absent-thread absent h = refl
absent-thread m h = absurd (cc)

-- A step of the thread that leaves the object alone.
pub move-Inv :
    (fw : Watcher) (m m' : Monitor) (u : User)
    → is_present m ≡ true
    → is_present m' ≡ true
    → is_idle m' ≡ true
    → (is_active m' ≡ true → is_active m ≡ true)
    → Inv fw m u
    → Inv fw m' u
move-Inv fw m m' u here here' idle less i = record {
  named = i.named;
  looked = λ ev wd path evs e. absurd (cc (idle, ap is_idle e));
  thread = i.thread ∙ here ∙ sym here';
  open_fds = λ a. i.open_fds (less a);
  running = λ a e. i.running (less a) e;
  waiting = i.waiting;
  closed = i.closed;
}

-- The thread gives up on an error.
pub give_up-Inv :
    (fw : Watcher) (m : Monitor) (u : User)
    → is_present m ≡ true
    → Inv fw m u
    → Inv (record fw { is_running = false }) ended u
give_up-Inv fw m u here i = record {
  named = IsNamed-same fw _ refl i.named;
  looked = λ ev wd path evs e. cc;
  thread = i.thread ∙ here;
  open_fds = λ a. cc;
  running = λ a e. cc;
  waiting = λ e. (refl, (i.waiting e).1);
  closed = λ e. ground (arith, i.closed e);
}
