-- ===== src/Tests/Watchers.antt =====
-- The theorems on the two threads of `FileWatcher` at concrete states.
use secure_storage.Base.{ℕ, ◌≡◌, ◌≢◌, refl, true, false, none, some, []}
use secure_storage.Os.Memory.{World, memory_os}
use secure_storage.Inotify.Toy.{toy_inotify}
use secure_storage.Watcher.{
  Watcher, watcher, start, start_with, spawn_monitor, set_nonblocking, stop_begin, stop_end,
  signal_stop,
}
use secure_storage.Watcher.Monitor.{
  System, Reach, begun, later, Step, u_start, u_stop_wait, u_joined, m_test, initial, at_test,
  absent, free, joining,
}
use secure_storage.Watcher.Monitor.Frames.{Closed}
use secure_storage.Watcher.Monitor.Safety.{stopped-Closed}
use secure_storage.Base.{◌≤◌, none}
use secure_storage.Watcher.Monitor.{ended, m_poll, failed, again, after_poll}
use secure_storage.Watcher.Monitor.Safety.{start-none}
use secure_storage.Watcher.Monitor.Descriptors.{KeepsOpen, before, monitor-Open}
use secure_storage.Tests.Values.{world_of}

abbrev pub here : World
here = world_of []

abbrev pub started : Watcher
started = record watcher {
  inotify_fd = some 10;
  pipe_read = some 11;
  pipe_write = some 12;
  joinable = true;
  is_running = true;
}

starts : start memory_os toy_inotify watcher here ≡ some (true, started, here)
unfolding start start_with spawn_monitor set_nonblocking
starts = refl

abbrev running : System memory_os toy_inotify
running = record (initial memory_os toy_inotify here) { fw = started; monitor = at_test }

runs : Reach memory_os toy_inotify here running
runs = later begun (u_start here true started here refl starts)

-- The descriptors that the kernel has given out.
abbrev IsOpen : World → ℕ → Type 0
IsOpen w fd = fd ≤ 12

keeps_open : KeepsOpen memory_os toy_inotify IsOpen
keeps_open = record {
  signal_keeps = λ w fd q o. o;
  add_keeps = λ w fd path mask q o. o;
  rm_keeps = λ w fd wd q o. o;
}

monitor-Open_example :
    (started.inotify_fd ≢ none)
    × (started.pipe_read ≢ none)
    × (started.pipe_write ≢ none)
    × ((t : System memory_os toy_inotify) (st : Step memory_os toy_inotify running t) (q : ℕ)
        → IsOpen (before memory_os toy_inotify st) q
        → IsOpen t.world q)
monitor-Open_example = monitor-Open memory_os toy_inotify IsOpen keeps_open runs refl

begins :
    stop_begin memory_os toy_inotify started here
    ≡ (false, record started { is_running = false }, here)
unfolding stop_begin signal_stop
begins = refl

abbrev waiting : System memory_os toy_inotify
waiting = record running {
  fw = (stop_begin memory_os toy_inotify started here).1;
  world = (stop_begin memory_os toy_inotify started here).2;
  user = joining;
}

waits : Reach memory_os toy_inotify here waiting
unfolding stop_begin
waits = later runs (u_stop_wait here refl refl refl)

abbrev last : System memory_os toy_inotify
last = record waiting {
  fw = (stop_end memory_os toy_inotify waiting.fw here).0;
  world = (stop_end memory_os toy_inotify waiting.fw here).1;
  monitor = absent;
  user = free;
}

stopped : Reach memory_os toy_inotify here last
unfolding stop_begin
stopped = later (later waits (m_test refl)) (u_joined here refl refl)

stopped_by_user : last.fw.stopped_by_user ≡ true
unfolding stop_end stop_begin
stopped_by_user = refl

stopped-Closed_example :
    Closed last.fw
    × (last.monitor ≡ absent)
    × ((t : System memory_os toy_inotify) → Step memory_os toy_inotify last t → t.reports ≡ [])
stopped-Closed_example = stopped-Closed memory_os toy_inotify stopped stopped_by_user

-- The thread has ended on an error of `poll`.
abbrev broken_off : System memory_os toy_inotify
broken_off = record running { fw = record started { is_running = false }; monitor = ended }

breaks_off : Reach memory_os toy_inotify here broken_off
unfolding after_poll
breaks_off = later (later runs (m_test refl)) (m_poll failed again refl)

no_second_start : start memory_os toy_inotify broken_off.fw here ≡ none
unfolding start start_with spawn_monitor set_nonblocking
no_second_start = refl

start-none_example : broken_off.monitor ≡ ended
start-none_example = start-none memory_os toy_inotify breaks_off here refl no_second_start
