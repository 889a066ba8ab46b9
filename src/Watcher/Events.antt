-- ===== src/Watcher/Events.antt =====
-- The events of `FileWatcher`: `processInotifyEvent`, `eventMaskToString`, and the walk of `monitorLoop`
-- over its buffer.
pub mod Words
pub mod Walk
use secure_storage.Base.{
  ℕ, zero, suc, ◌+◌, Bool, true, false, not, ◌&&◌, Option, none, some, List, [], ◌∷◌, ◌++◌, ltb,
  ◌==◌, if◌then◌else◌,
}
use secure_storage.Base.Text.{Str, Bytes, codes, empty, back_is, is_slash, pop_back}
use secure_storage.Inotify.{Inotify, Event}
use secure_storage.Watcher.{Watcher, path_of, leave}

pub record WatchedEvent : Type 0 where
  pub file_path : Str
  pub file_name : Str
  pub mask : ℕ
  pub is_dir : Bool
  pub event_name_str : Str

-- `fullItemPath`, which is only logged. `none` is `back()` of an empty path.
unfoldable pub full_item_path : Str → Str → Option Str
full_item_path path name =
    if empty name
    then some path
    else if empty path
    then none
    else some ((if back_is is_slash path then path else path ++ b'/' ∷ []) ++ name)

-- The lookup of a descriptor: those that are negative are never found.
abbrev pub find_path : Option ℕ → Watcher → Option (ℕ × Str)
find_path none fw = none
find_path (some wd) fw = elim (path_of wd fw.wd_to_path) [
  | none ↦ none
  | some path ↦ some (wd, path)
]

abbrev pub is_none : Option ℕ → Bool
is_none none = true
is_none (some wd) = false

module _ {World : Type 0} (ino : Inotify World) where
  -- One `if` of `eventMaskToString`.
  unfoldable pub word : ℕ → ℕ → Str → Str
  word mask flag name = if ino.has mask flag then name else []

  unfoldable pub event_words : ℕ → Str
  event_words mask =
      word mask ino.in_access (codes "ACCESS ")
      ++ (word mask ino.in_modify (codes "MODIFY ")
          ++ (word mask ino.in_attrib (codes "ATTRIB ")
              ++ (word mask ino.in_close_write (codes "CLOSE_WRITE ")
                  ++ (word mask ino.in_close_nowrite (codes "CLOSE_NOWRITE ")
                      ++ (word mask ino.in_open (codes "OPEN ")
                          ++ (word mask ino.in_moved_from (codes "MOVED_FROM ")
                              ++ (word mask ino.in_moved_to (codes "MOVED_TO ")
                                  ++ (word mask ino.in_create (codes "CREATE ")
                                      ++ (word mask ino.in_delete (codes "DELETE ")
                                          ++ (word mask ino.in_delete_self (codes "DELETE_SELF ")
                                              ++ (word mask ino.in_move_self (codes "MOVE_SELF ")
                                                  ++ (word mask ino.in_unmount (codes "UNMOUNT ")
                                                      ++ (word mask ino.in_q_overflow
                                                            (codes "Q_OVERFLOW ")
                                                          ++ (word mask ino.in_ignored
                                                            (codes "IGNORED ")
                                                            ++ word mask ino.in_isdir
                                                            (codes "ISDIR ")))))))))))))))

  unfoldable pub event_mask_to_string : ℕ → Str
  event_mask_to_string mask =
      let res = event_words mask in if not (empty res) then pop_back res else res

  -- `processInotifyEvent` of a descriptor with a path: the event for the callback, and the object.
  -- `none` is undefined behaviour.
  unfoldable pub process_at : Event → ℕ → Str → Watcher → Option (WatchedEvent × Watcher)
  process_at ev wd path fw =
      let name : Str = if ev.len == 0 then [] else ev.name in
      let watched : WatchedEvent = record {
        file_path = path;
        file_name = name;
        mask = ev.mask;
        is_dir = ino.has ev.mask ino.in_isdir;
        event_name_str = event_mask_to_string ev.mask;
      } in
      elim (full_item_path path name) [
        | none ↦ none
        | some _ ↦ some (watched, if ino.has ev.mask ino.in_ignored then leave path wd fw else fw)
      ]

  -- The events handed to the callback, if there is one, and the object.
  unfoldable pub process_event : Event → Watcher → Option (List WatchedEvent × Watcher)
  process_event ev fw = elim (find_path ev.wd fw) [
    | none ↦ some ([], fw)
    | some (wd, path) ↦ elim (process_at ev wd path fw) [
      | none ↦ none
      | some (watched, fw') ↦ some (watched ∷ [], fw')
    ]
  ]

  -- The body of the inner loop, up to the step to the next event.
  unfoldable pub handle_event : Event → Watcher → Option (List WatchedEvent × Watcher)
  handle_event ev fw =
      if is_none ev.wd && ino.has ev.mask ino.in_q_overflow
      then some ([], fw)
      else process_event ev fw

  -- The inner loop from index `i`; `none` is undefined behaviour, of which the read of an event that
  -- goes beyond the bytes that were read is one, or the fuel run out.
  unfoldable pub walk : ℕ → Bytes → ℕ → ℕ → Watcher → Option (List WatchedEvent × Watcher)
  walk zero buffer len i fw = none
  walk (suc fuel) buffer len i fw =
      if not (ltb i len)
      then some ([], fw)
      else let ev = ino.event_at buffer i in
        let next = i + (ino.header_size + ev.len) in
        if ltb len next then none else elim (handle_event ev fw) [
          | none ↦ none
          | some (out, fw') ↦ elim (walk fuel buffer len next fw') [
            | none ↦ none
            | some (rest, fw'') ↦ some (out ++ rest, fw'')
          ]
        ]
