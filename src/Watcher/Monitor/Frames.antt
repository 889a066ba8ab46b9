-- ===== src/Watcher/Monitor/Frames.antt =====
-- What the methods of `FileWatcher` change of the object.
use secure_storage.Base.{
  ℕ, ◌≡◌, ◌≢◌, refl, ◌∙◌, ◌⊎◌, inl, inr, Bool, true, false, none, some, [], arith, Option-cases,
}
use secure_storage.Base.Text.{Str}
use secure_storage.Base.Dict.{get}
use secure_storage.Os.{Os}
use secure_storage.Inotify.{Inotify, Event}
use secure_storage.Watcher.{
  Watcher, start, start_with, spawn_monitor, set_nonblocking, stop_begin, stop_end, close_watches,
  add_watch, remove_watch, watch_path, unwatch_path, enter, leave, path_of, wd_of,
}
use secure_storage.Watcher.Maps.{add_watch-cases, remove_watch-cases}
use secure_storage.Watcher.Maps.Named.{IsNamed, IsNamed-same}
use secure_storage.Watcher.Events.{WatchedEvent, process_at}

-- The objects differ in their maps at most.
pub record Frame (fw fw' : Watcher) : Type 0 where
  pub inotify_fd : fw'.inotify_fd ≡ fw.inotify_fd
  pub pipe_read : fw'.pipe_read ≡ fw.pipe_read
  pub pipe_write : fw'.pipe_write ≡ fw.pipe_write
  pub joinable : fw'.joinable ≡ fw.joinable
  pub is_running : fw'.is_running ≡ fw.is_running
  pub stopped_by_user : fw'.stopped_by_user ≡ fw.stopped_by_user

pub Frame-refl : (fw : Watcher) → Frame fw fw
Frame-refl fw = ground arith

pub enter-Frame : (path : Str) (wd : ℕ) (fw : Watcher) → Frame fw (enter path wd fw)
unfolding enter
enter-Frame path wd fw = ground arith

pub leave-Frame : (path : Str) (wd : ℕ) (fw : Watcher) → Frame fw (leave path wd fw)
unfolding leave
leave-Frame path wd fw = ground arith

-- What `stop` leaves.
pub record Closed (fw : Watcher) : Type 0 where
  pub inotify_fd : fw.inotify_fd ≡ none
  pub pipe_read : fw.pipe_read ≡ none
  pub pipe_write : fw.pipe_write ≡ none
  pub joinable : fw.joinable ≡ false
  pub is_running : fw.is_running ≡ false

pub path_of-nil : (wd : ℕ) (path : Str) → path_of wd [] ≢ some path
unfolding get
path_of-nil wd path h = cc

pub process_at-Frame :
    {World : Type 0} (ino : Inotify World) (ev : Event) (wd : ℕ) (path : Str)
    (watched : WatchedEvent) (fw fw' : Watcher)
    → process_at ino ev wd path fw ≡ some (watched, fw')
    → Frame fw fw'
unfolding process_at leave
process_at-Frame ino ev wd path watched fw fw' h = ground arith

module _ (os : Os) (ino : Inotify os.World) where
  pub watch_path-Frame :
      (fd : ℕ) (path : Str) (fw : Watcher) (w : os.World)
      → Frame fw (watch_path os ino fd path fw w).1
  unfolding watch_path
  watch_path-Frame fd path fw w = elim (Option-cases (wd_of path fw.path_to_wd)) [
    | inr (wd, e) ↦ rw (e, watch_path) (Frame-refl fw)
    | inl e ↦ elim (Option-cases (ino.add_watch w fd path ino.watched_mask).0) [
      | inl f ↦ rw (e, f, watch_path) (Frame-refl fw)
      | inr (wd, f) ↦ rw (e, f, watch_path) (enter-Frame path wd fw)
    ]
  ]

  pub unwatch_path-Frame :
      (fd : ℕ) (path : Str) (fw : Watcher) (w : os.World)
      → Frame fw (unwatch_path os ino fd path fw w).1
  unfolding unwatch_path
  unwatch_path-Frame fd path fw w = elim (Option-cases (wd_of path fw.path_to_wd)) [
    | inl e ↦ rw (e, unwatch_path) (Frame-refl fw)
    | inr (wd, e) ↦ rw (e, unwatch_path) (leave-Frame path wd fw)
  ]

  pub add_watch-Frame :
      (path : Str) (fw : Watcher) (w : os.World) → Frame fw (add_watch os ino path fw w).1
  add_watch-Frame path fw w = elim (add_watch-cases os ino path fw w) [
    | inl e ↦ rw e (Frame-refl fw)
    | inr (fd, _, _, e) ↦ rw e (watch_path-Frame fd path fw w)
  ]

  pub remove_watch-Frame :
      (path : Str) (fw : Watcher) (w : os.World) → Frame fw (remove_watch os ino path fw w).1
  remove_watch-Frame path fw w = elim (remove_watch-cases os ino path fw w) [
    | inl e ↦ rw e (Frame-refl fw)
    | inr (fd, _, e) ↦ rw e (unwatch_path-Frame fd path fw w)
  ]

  pub start-maps :
      (fw fw' : Watcher) (w w' : os.World) (b : Bool)
      → start os ino fw w ≡ some (b, fw', w')
      → (fw'.wd_to_path ≡ fw.wd_to_path) × (fw'.path_to_wd ≡ fw.path_to_wd)
  unfolding start start_with spawn_monitor set_nonblocking
  start-maps fw fw' w w' b h = ground arith

  pub start-cases :
      (fw fw' : Watcher) (w w' : os.World) (b : Bool)
      → start os ino fw w ≡ some (b, fw', w')
      → (fw' ≡ fw)
        ⊎ ((fw.is_running ≡ false)
            × (fw.stopped_by_user ≡ false)
            × (fw'.joinable ≡ fw.joinable)
            × (fw'.is_running ≡ false)
            × (fw'.stopped_by_user ≡ false))
        ⊎ ((fw.joinable ≡ false)
            × (fw'.joinable ≡ true)
            × (fw'.is_running ≡ true)
            × (fw'.stopped_by_user ≡ false)
            × (fw'.inotify_fd ≢ none)
            × (fw'.pipe_read ≢ none)
            × (fw'.pipe_write ≢ none))
  unfolding start start_with spawn_monitor set_nonblocking
  start-cases fw fw' w w' b h = ground arith

  -- The program is ended by the assignment of a thread to a joinable one.
  pub start-none-cases :
      (fw : Watcher) (w : os.World)
      → start os ino fw w ≡ none
      → (fw.joinable ≡ true) × (fw.is_running ≡ false)
  unfolding start start_with spawn_monitor set_nonblocking
  start-none-cases fw w h = ground arith

  pub close_watches-cases :
      (fw : Watcher) (w : os.World)
      → let fw' = (close_watches os ino fw w).0 in
        (fw'.inotify_fd ≡ none)
        × (fw'.is_running ≡ fw.is_running)
        × (((fw'.wd_to_path ≡ fw.wd_to_path) × (fw'.path_to_wd ≡ fw.path_to_wd))
            ⊎ (fw'.wd_to_path ≡ []))
  unfolding close_watches
  close_watches-cases fw w = ground arith

  pub stop_end-Closed :
      (fw : Watcher) (w : os.World) → fw.is_running ≡ false → Closed (stop_end os ino fw w).0
  unfolding stop_end
  stop_end-Closed fw w h =
      let (e, f, _) = close_watches-cases fw w in
      record {
        inotify_fd = e;
        pipe_read = refl;
        pipe_write = refl;
        joinable = refl;
        is_running = f ∙ h;
      }

  pub stop_end-IsNamed :
      (fw : Watcher) (w : os.World) → IsNamed fw → IsNamed (stop_end os ino fw w).0
  unfolding stop_end
  stop_end-IsNamed fw w n = elim ((close_watches-cases fw w).2) [
    | inl (e, f) ↦ IsNamed-same fw _ e n
    | inr e ↦ record { not_empty = λ wd path h. absurd (path_of-nil wd path (rw e at h)) }
  ]

  pub stop_begin-cases :
      (fw : Watcher) (w : os.World)
      → let (at_once, fw1, w1) = stop_begin os ino fw w in
        (fw1.is_running ≡ false)
        × (fw1.joinable ≡ fw.joinable)
        × (fw1.inotify_fd ≡ fw.inotify_fd)
        × (fw1.pipe_read ≡ fw.pipe_read)
        × (fw1.pipe_write ≡ fw.pipe_write)
        × (fw1.stopped_by_user ≡ fw.stopped_by_user)
        × (fw1.wd_to_path ≡ fw.wd_to_path)
        × (fw1.path_to_wd ≡ fw.path_to_wd)
        × ((at_once ≡ true) ⊎ (fw.stopped_by_user ≡ false) ⊎ (fw.is_running ≡ true))
  unfolding stop_begin
  stop_begin-cases fw w = ground arith
