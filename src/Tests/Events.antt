-- ===== src/Tests/Events.antt =====
-- The theorems on the methods and the events of `FileWatcher`, and on the Logger, at concrete objects.
use secure_storage.Base.{
  ℕ, ◌≡◌, ◌+◌, ◌++◌, refl, ◌⊎◌, true, false, none, some, List, [], ◌∷◌, arith,
}
use secure_storage.Base.Text.{Str, Bytes, codes, str_eq, str_eq_iff, find_last}
use secure_storage.Base.Dict.{get}
use secure_storage.Os.Memory.{memory_os}
use secure_storage.Inotify.{Event}
use secure_storage.Logger.{info, error, logger, file_name, log_line}
use secure_storage.Logger.Lines.{Entry, log_all, log_all_lem}
use secure_storage.Inotify.Toy.{toy_inotify}
use secure_storage.Watcher.{Watcher, watcher, watch_path, unwatch_path, wd_of, path_of}
use secure_storage.Watcher.Maps.{IsPaired}
use secure_storage.Watcher.Events.{WatchedEvent, event_mask_to_string, walk}
use secure_storage.Watcher.Events.Words.{event_mask_to_string_lem}
use secure_storage.Watcher.Events.Walk.{w_end, w_event, walk_total, events_in, handle_all}
use secure_storage.Watcher.Monitor.Frames.{Closed}
use secure_storage.Base.{none}
use secure_storage.Watcher.{stop}
use secure_storage.Watcher.Stopping.{stop-stop}
use secure_storage.Watcher.Watches.{watch_path_stale}
use secure_storage.Tests.Values.{top}
use secure_storage.Tests.Watchers.{here, started}

event_mask_to_string_lem_example : event_mask_to_string toy_inotify 258 ≡ codes "MODIFY CREATE"
event_mask_to_string_lem_example = event_mask_to_string_lem toy_inotify 258

nothing_watched : IsPaired watcher
unfolding get
nothing_watched = record { back = λ wd path h. absurd (cc); not_empty = λ wd path h. absurd (cc) }

-- Two events for descriptors that have no path, in a buffer of six places.
abbrev buffer : Bytes
buffer = 7 ∷ 2 ∷ 0 ∷ 8 ∷ 2 ∷ 0 ∷ []

walk_total_example :
    (evs : List Event) × (r : List WatchedEvent × Watcher) × (events_in toy_inotify 7 buffer 6 0
      ≡ some evs)
    × (walk toy_inotify 7 buffer 6 0 watcher ≡ some r)
    × (handle_all toy_inotify evs watcher ≡ some r)
    × IsPaired r.1
walk_total_example =
    walk_total toy_inotify buffer 6 watcher (omega arith)
      (w_event (omega arith) (w_event (omega arith) w_end)) nothing_watched

abbrev twin : Str
twin = codes "//"

twin-differs : str_eq twin top ≡ false
unfolding str_eq
twin-differs = refl

no_top : wd_of top watcher.path_to_wd ≡ none
unfolding get
no_top = refl

no_twin : wd_of twin watcher.path_to_wd ≡ none
unfolding get
no_twin = refl

watch_path_stale_example :
    let (_, fw1, v1) = watch_path memory_os toy_inotify 10 top watcher here in
    let (_, fw2, v2) = watch_path memory_os toy_inotify 10 twin fw1 v1 in
    let (_, fw3, v3) = unwatch_path memory_os toy_inotify 10 twin fw2 v2 in
    (path_of 1 fw3.wd_to_path ≡ none)
    × (watch_path memory_os toy_inotify 10 top fw3 v3 ≡ (true, fw3, v3))
watch_path_stale_example =
    watch_path_stale memory_os toy_inotify 10 1 top twin watcher here here here
      (λ e. cc (twin-differs, (str_eq_iff twin top).1 e)) no_top no_twin refl refl

abbrev two_entries : List Entry
two_entries =
    record {
      timestamp = codes "now";
      level = info;
      message = codes "a";
      file = codes "/x/y.cpp";
      line = 1;
    }
    ∷ record {
      timestamp = codes "now";
      level = error;
      message = codes "b";
      file = codes "y.cpp";
      line = 2;
    }
    ∷ []

-- A line number of one digit.
abbrev digit : ℕ → Str
digit n = (b'0' + n) ∷ []

log_all_lem_example :
    log_all digit (logger true) two_entries []
    ≡ (codes "[now] [ERROR] [y.cpp:2] b" ++ 0x0a ∷ []) ∷ []
unfolding log_line file_name find_last
log_all_lem_example = log_all_lem digit (logger true) two_entries []

stop-stop_example :
    let (fw', w') = stop memory_os toy_inotify (λ fw w. (fw, w)) started here in
    (fw'.is_running ≡ false)
    × (fw'.stopped_by_user ≡ true)
    × (Closed fw' ⊎ (fw' ≡ started))
    × (stop memory_os toy_inotify (λ fw w. (fw, w)) fw' w' ≡ (fw', w'))
stop-stop_example = stop-stop memory_os toy_inotify (λ fw w. (fw, w)) (λ fw w h. h) started here
