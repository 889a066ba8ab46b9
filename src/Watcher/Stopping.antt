-- ===== src/Watcher/Stopping.antt =====
-- `FileWatcher::stop` as a whole, by what the thread does until it has ended.
use secure_storage.Base.{
  ◌≡◌, refl, ◌⊎◌, inl, inr, Bool, true, false, not, ◌&&◌, arith, Bool-cases, if◌then◌else◌,
}
use secure_storage.Os.{Os}
use secure_storage.Inotify.{Inotify}
use secure_storage.Watcher.{Watcher, stop, stop_begin, stop_end}
use secure_storage.Watcher.Monitor.Frames.{Closed, stop_begin-cases, stop_end-Closed}

module _ (os : Os) (ino : Inotify os.World) (monitor_ends : Watcher → os.World → Watcher × os.World)
    (still : (fw : Watcher) (w : os.World)
      → fw.is_running ≡ false
      → (monitor_ends fw w).0.is_running ≡ false) where
  -- A watcher that was stopped is left alone.
  stop_again :
      (fw : Watcher) (w : os.World)
      → fw.is_running ≡ false
      → fw.stopped_by_user ≡ true
      → stop os ino monitor_ends fw w ≡ (fw, w)
  unfolding stop stop_begin
  stop_again fw w off done = rw (off, done, stop, stop_begin) refl

  stop_end-stopped : (fw : Watcher) (w : os.World) → (stop_end os ino fw w).0.stopped_by_user ≡ true
  unfolding stop_end
  stop_end-stopped fw w = refl

  abbrev begun : Watcher → os.World → Bool × Watcher × os.World
  begun fw w = stop_begin os ino fw w

  abbrev joined : Watcher → os.World → Watcher × os.World
  joined fw w =
      if (begun fw w).1.joinable
      then monitor_ends (begun fw w).1 (begun fw w).2
      else ((begun fw w).1, (begun fw w).2)

  joined-off : (fw : Watcher) (w : os.World) → (joined fw w).0.is_running ≡ false
  joined-off fw w =
      let off = (stop_begin-cases os ino fw w).0 in
      elim (Bool-cases (begun fw w).1.joinable) [
        | inl j ↦ rw (j, joined) (still (begun fw w).1 (begun fw w).2 off)
        | inr j ↦ rw (j, joined) off
      ]

  -- `stop` leaves a watcher that was stopped alone, or it closes the watcher.
  stop-cases :
      (fw : Watcher) (w : os.World)
      → ((fw.is_running ≡ false) × (fw.stopped_by_user ≡ true))
        ⊎ (stop os ino monitor_ends fw w ≡ stop_end os ino (joined fw w).0 (joined fw w).1)
  unfolding stop
  stop-cases fw w = elim (Bool-cases (not fw.is_running && fw.stopped_by_user)) [
    | inl e ↦ inl (ground arith, ground arith)
    | inr e ↦
        let more : (begun fw w).0 ≡ false = unfold stop_begin in ground arith in
        inr (rw (more, stop) refl)
  ]

  -- If what the thread does while `stop` waits leaves a watcher that does not run so: after `stop`,
  -- the watcher does not run and is marked as stopped, it is closed or as it was, and another
  -- `stop` leaves it and the world as they are.
  pub stop-stop :
      (fw : Watcher) (w : os.World)
      → let (fw', w') = stop os ino monitor_ends fw w in
        (fw'.is_running ≡ false)
        × (fw'.stopped_by_user ≡ true)
        × (Closed fw' ⊎ (fw' ≡ fw))
        × (stop os ino monitor_ends fw' w' ≡ (fw', w'))
  stop-stop fw w = elim (stop-cases fw w) [
    | inl (off, done) ↦ let same = stop_again fw w off done in rw same (off, done, inr refl, same)
    | inr e ↦
        let (v, w') = joined fw w in
        let c = stop_end-Closed os ino v w' (joined-off fw w) in
        rw e (
          c.is_running,
          stop_end-stopped v w',
          inl c,
          stop_again _ _ c.is_running (stop_end-stopped v w'),
        )
  ]
