-- ===== src/Watcher/Monitor/Safety.antt =====
-- Safety of the two threads of `FileWatcher`.
use secure_storage.Base.{◌≡◌, ◌≢◌, refl, sym, ◌∙◌, true, none}
use secure_storage.Os.{Os}
use secure_storage.Inotify.{Inotify}
use secure_storage.Watcher.Monitor.{
  Monitor, absent, ended, free, System, Step, Reach, u_start, u_add, u_remove, u_stop_again,
  u_stop_alone, u_stop_wait, u_joined, m_test, m_poll, m_events_done, m_event, m_handle,
}
use secure_storage.Watcher.Monitor.Frames.{Closed, start-none-cases}
use secure_storage.Watcher.{start}
use secure_storage.Watcher.Monitor.Invariant.{is_active, is_present, absent-thread}
use secure_storage.Watcher.Monitor.Invariant.Steps.{Reach-Inv}

module _ (os : Os) (ino : Inotify os.World) where
  reports-same :
      {s t : System os ino} → Step os ino s t → s.monitor ≡ absent → t.reports ≡ s.reports
  reports-same (m_handle ev wd path evs watched fw' e h) a = absurd (cc (e, a))
  reports-same (m_event ev evs e) a = refl
  reports-same (u_start w b fw' w' u h) a = refl
  reports-same (u_add path w u) a = refl
  reports-same (u_remove path w u) a = refl
  reports-same (u_stop_again w u h) a = refl
  reports-same (u_stop_alone w u h j) a = refl
  reports-same (u_stop_wait w u h j) a = refl
  reports-same (u_joined w u e) a = refl
  reports-same (m_test e) a = refl
  reports-same (m_poll poll reading e) a = refl
  reports-same (m_events_done e) a = refl

module _ (os : Os) (ino : Inotify os.World) {w : os.World} {s : System os ino}
    (r : Reach os ino w s) where
  -- In every state that can be reached, once `stop` has completed, the object has no descriptor, no
  -- thread to join and does not run, no thread is left, and no step hands an event to the callback.
  pub stopped-Closed :
      s.fw.stopped_by_user ≡ true
      → Closed s.fw
        × (s.monitor ≡ absent)
        × ((t : System os ino) → Step os ino s t → t.reports ≡ s.reports)
  stopped-Closed h =
      let i = Reach-Inv os ino r in
      let (c, _) = i.closed h in
      let gone = absent-thread s.monitor (sym i.thread ∙ c.joinable) in
      (c, gone, λ t st. reports-same os ino st gone)

  -- What is there and does not work any more has ended.
  ended-only : (m : Monitor) → is_present m ≡ true → is_active m ≢ true → m ≡ ended
  ended-only ended here off = refl
  ended-only absent here off = absurd (cc)
  ended-only m here off = absurd (off refl)

  -- In every state that can be reached, while the application is in none of the methods, `start`
  -- ends the program only if the thread has ended by itself and was not joined.
  pub start-none : (v : os.World) → s.user ≡ free → start os ino s.fw v ≡ none → s.monitor ≡ ended
  start-none v free_user h =
      let i = Reach-Inv os ino r in
      let (there, off) = start-none-cases os ino s.fw v h in
      ended-only s.monitor (sym i.thread ∙ there) (λ on. cc (off, i.running on free_user))
