-- ===== src/Watcher.antt =====
-- `FileWatcher` (src/file_watcher/FileWatcher.h, src/file_watcher/FileWatcher.cpp): the object, and the
-- methods that the application calls. Log lines are left out.
pub mod Maps
pub mod Events
pub mod Monitor
pub mod Watches
pub mod Stopping
use secure_storage.Base.{
  ℕ, Bool, true, false, not, ◌&&◌, ◌||◌, Option, none, some, List, [], ◌∷◌, ◌==◌, ltb,
  if◌then◌else◌,
}
use secure_storage.Base.Text.{Str, empty, str_eq}
use secure_storage.Base.Dict.{get, set, erase}
use secure_storage.Os.{Os}
use secure_storage.FileUtil.{path_exists}
use secure_storage.Inotify.{Inotify}

-- A descriptor of -1 is `none`. `joinable` is that of `m_monitorThread`. The callback is part of the
-- world that `processInotifyEvent` hands its event to.
pub record Watcher : Type 0 where
  pub inotify_fd : Option ℕ
  pub pipe_read : Option ℕ
  pub pipe_write : Option ℕ
  pub joinable : Bool
  pub is_running : Bool
  pub stopped_by_user : Bool
  pub wd_to_path : List (ℕ × Str)
  pub path_to_wd : List (Str × ℕ)

-- The constructor.
abbrev pub watcher : Watcher
watcher = record {
  inotify_fd = none;
  pipe_read = none;
  pipe_write = none;
  joinable = false;
  is_running = false;
  stopped_by_user = false;
  wd_to_path = [];
  path_to_wd = [];
}

abbrev pub path_of : ℕ → List (ℕ × Str) → Option Str
path_of = get ◌==◌

abbrev pub wd_of : Str → List (Str × ℕ) → Option ℕ
wd_of = get str_eq

-- `m_wdToPathMap[wd] = path; m_pathToWdMap[path] = wd;`
unfoldable pub enter : Str → ℕ → Watcher → Watcher
enter path wd fw = record fw {
  wd_to_path = set ◌==◌ wd path fw.wd_to_path;
  path_to_wd = set str_eq path wd fw.path_to_wd;
}

-- `m_wdToPathMap.erase(wd); m_pathToWdMap.erase(path);`
unfoldable pub leave : Str → ℕ → Watcher → Watcher
leave path wd fw = record fw {
  wd_to_path = erase ◌==◌ wd fw.wd_to_path;
  path_to_wd = erase str_eq path fw.path_to_wd;
}

-- The order in which `std::map<int, ...>` is walked: by ascending descriptor.
unfoldable pub place_watch : ℕ × Str → List (ℕ × Str) → List (ℕ × Str)
place_watch e [] = e ∷ []
place_watch e (d ∷ m) = let rest = place_watch e m in if ltb d.0 e.0 then d ∷ rest else e ∷ d ∷ m

unfoldable pub in_order : List (ℕ × Str) → List (ℕ × Str)
in_order [] = []
in_order (e ∷ m) = place_watch e (in_order m)

module _ (os : Os) (ino : Inotify os.World) where
  open os use {World}

  -- `close(fd)` of a descriptor that is not -1.
  unfoldable pub close_fd : Option ℕ → World → World
  close_fd none w = w
  close_fd (some fd) w = ino.close w fd

  -- The two calls of `fcntl`.
  unfoldable pub set_nonblocking : ℕ → World → Bool × World
  set_nonblocking fd w = elim (ino.get_flags w fd) [
    | none ↦ (false, w)
    | some flags ↦ ino.set_nonblocking w fd flags
  ]

  -- The end of `start`, with both descriptors there: `none` is the termination of the program by the
  -- assignment of a thread to one that is joinable.
  unfoldable pub spawn_monitor : ℕ → ℕ × ℕ → Watcher → World → Option (Bool × Watcher × World)
  spawn_monitor fd (r, t) fw w =
      let (spawned, w1) = ino.spawn w in
      if not spawned
      then some (
        false,
        record fw { inotify_fd = none; pipe_read = none; pipe_write = none; is_running = false },
        ino.close (ino.close (ino.close w1 fd) r) t,
      )
      else if fw.joinable
      then none
      else some (
        true,
        record fw {
          inotify_fd = some fd;
          pipe_read = some r;
          pipe_write = some t;
          joinable = true;
          is_running = true;
        },
        w1,
      )

  -- A failure of `start` before the pipe is there: the object has no descriptor of inotify then.
  abbrev pub not_started : Watcher → Watcher
  not_started fw = record fw { inotify_fd = none; is_running = false }

  unfoldable pub start_with : ℕ → Watcher → World → Option (Bool × Watcher × World)
  start_with fd fw w =
      let (done, w1) = set_nonblocking fd w in
      let (ends?, w2) = ino.pipe w1 in
      if not done then some (false, not_started fw, ino.close w1 fd) else elim ends? [
        | none ↦ some (false, not_started fw, ino.close w2 fd)
        | some ends ↦ spawn_monitor fd ends fw w2
      ]

  unfoldable pub start : Watcher → World → Option (Bool × Watcher × World)
  start fw w =
      if fw.stopped_by_user
      then some (false, fw, w)
      else if fw.is_running
      then some (true, fw, w)
      else let (fd?, w1) = ino.init w in
        elim fd? [ none ↦ some (false, not_started fw, w1) | some fd ↦ start_with fd fw w1 ]

  -- `write(m_pipeFd[1], "S", 1)`
  unfoldable pub signal_stop : Watcher → World → World
  signal_stop fw w = elim fw.pipe_write [ none ↦ w | some fd ↦ ino.signal w fd ]

  -- `stop` up to the point where it waits for the thread: `true` is the early return.
  unfoldable pub stop_begin : Watcher → World → Bool × Watcher × World
  stop_begin fw w =
      if not fw.is_running
      then (if fw.stopped_by_user
          then (true, fw, w)
          else (false, fw, if fw.joinable then signal_stop fw w else w))
      else (false, record fw { is_running = false }, signal_stop fw w)

  -- The loop of `inotify_rm_watch`, whose results are only logged.
  unfoldable pub rm_watches : ℕ → List (ℕ × Str) → World → World
  rm_watches fd [] w = w
  rm_watches fd ((wd, path) ∷ m) w = rm_watches fd m (ino.rm_watch w fd wd)

  unfoldable pub close_watches : Watcher → World → Watcher × World
  close_watches fw w = elim fw.inotify_fd [
    | none ↦ (fw, w)
    | some fd ↦ (
      record fw { inotify_fd = none; wd_to_path = []; path_to_wd = [] },
      ino.close (rm_watches fd (in_order fw.wd_to_path) w) fd,
    )
  ]

  -- The rest of `stop`, after the thread was joined.
  unfoldable pub stop_end : Watcher → World → Watcher × World
  stop_end fw w =
      let (fw1, w1) = close_watches fw w in
      (
        record fw1 {
          pipe_read = none;
          pipe_write = none;
          joinable = false;
          stopped_by_user = true;
        },
        close_fd fw1.pipe_write (close_fd fw1.pipe_read w1),
      )

  -- `stop`, by what the monitor thread does until it has ended.
  unfoldable pub stop : (Watcher → World → Watcher × World) → Watcher → World → Watcher × World
  stop monitor_ends fw w =
      let (at_once, fw1, w1) = stop_begin fw w in
      let (fw2, w2) = if fw1.joinable then monitor_ends fw1 w1 else (fw1, w1) in
      if at_once then (fw1, w1) else stop_end fw2 w2

  -- `addWatch` past its checks, with the open descriptor.
  unfoldable pub watch_path : ℕ → Str → Watcher → World → Bool × Watcher × World
  watch_path fd path fw w = elim (wd_of path fw.path_to_wd) [
    | some wd ↦ (true, fw, w)
    | none ↦
        let (wd?, w') = ino.add_watch w fd path ino.watched_mask in
        elim wd? [ none ↦ (false, fw, w') | some wd ↦ (true, enter path wd fw, w') ]
  ]

  unfoldable pub add_watch : Str → Watcher → World → Bool × Watcher × World
  add_watch path fw w = if not fw.is_running then (false, fw, w) else elim fw.inotify_fd [
    | none ↦ (false, fw, w)
    | some fd ↦
        if empty path || not (path_exists os w path)
        then (false, fw, w)
        else watch_path fd path fw w
  ]

  -- `removeWatch` past its checks.
  unfoldable pub unwatch_path : ℕ → Str → Watcher → World → Bool × Watcher × World
  unwatch_path fd path fw w = elim (wd_of path fw.path_to_wd) [
    | none ↦ (false, fw, w)
    | some wd ↦ (true, leave path wd fw, ino.rm_watch w fd wd)
  ]

  unfoldable pub remove_watch : Str → Watcher → World → Bool × Watcher × World
  remove_watch path fw w = if not fw.is_running then (false, fw, w) else elim fw.inotify_fd [
    | none ↦ (false, fw, w)
    | some fd ↦ if empty path then (false, fw, w) else unwatch_path fd path fw w
  ]
