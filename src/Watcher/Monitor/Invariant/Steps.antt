-- ===== src/Watcher/Monitor/Invariant/Steps.antt =====
-- What holds of the two threads of `FileWatcher` holds in every state that they reach.
use secure_storage.Base.{refl}
use secure_storage.Os.{Os}
use secure_storage.Inotify.{Inotify}
use secure_storage.Watcher.Maps.Named.{add_watch-IsNamed, remove_watch-IsNamed}
use secure_storage.Watcher.Monitor.{
  at_test, System, Step, Reach, u_start, u_add, u_remove, u_stop_again, u_stop_alone, u_stop_wait,
  u_joined, m_test, m_poll, m_events_done, m_event, m_handle, begun, later,
}
use secure_storage.Watcher.Monitor.Frames.{add_watch-Frame, remove_watch-Frame}
use secure_storage.Watcher.Monitor.Invariant.{Inv, begun-Inv, Inv-Frame, move-Inv}
use secure_storage.Watcher.Monitor.Invariant.Methods.{
  start-Inv, stop_end-Inv, stop_wait-Inv, stop_alone-Inv,
}
use secure_storage.Watcher.Monitor.Invariant.Thread.{after_poll-Inv, test-Inv, look-Inv, handle-Inv}

module _ (os : Os) (ino : Inotify os.World) where
  Step-Inv :
      {s t : System os ino}
      → Step os ino s t
      → Inv s.fw s.monitor s.user
      → Inv t.fw t.monitor t.user
  Step-Inv {s} (u_start w b fw' w' u h) i =
      rw u (start-Inv os ino s.fw fw' w w' b s.monitor (rw u at i) h)
  Step-Inv {s} (u_add path w u) i =
      Inv-Frame s.fw _ s.monitor s.user (add_watch-Frame os ino path s.fw w)
        (add_watch-IsNamed os ino path s.fw w i.named) i
  Step-Inv {s} (u_remove path w u) i =
      Inv-Frame s.fw _ s.monitor s.user (remove_watch-Frame os ino path s.fw w)
        (remove_watch-IsNamed os ino path s.fw w i.named) i
  Step-Inv (u_stop_again w u h) i = i
  Step-Inv {s} (u_stop_alone w u h j) i = stop_alone-Inv os ino s.fw w s.monitor s.user u j i
  Step-Inv {s} (u_stop_wait w u h j) i = stop_wait-Inv os ino s.fw w s.monitor (rw u at i) j h
  Step-Inv {s} (u_joined w u e) i = stop_end-Inv os ino s.fw w i.named (i.waiting u).0
  Step-Inv {s} (m_test e) i = test-Inv os ino s.fw s.monitor s.user e i
  Step-Inv {s} (m_poll poll reading e) i = after_poll-Inv ino s.fw s.user (rw e at i) poll reading
  Step-Inv {s} (m_events_done e) i =
      move-Inv s.fw s.monitor at_test s.user (rw e refl) refl refl (λ a. rw e refl) i
  Step-Inv {s} (m_event ev evs e) i = look-Inv os ino ev evs s.fw s.monitor s.user e i
  Step-Inv {s} (m_handle ev wd path evs watched fw' e h) i =
      handle-Inv os ino ev wd path evs watched s.fw fw' s.monitor s.user e h i

  -- What holds in every reachable state.
  pub Reach-Inv : {w : os.World} {s : System os ino} → Reach os ino w s → Inv s.fw s.monitor s.user
  Reach-Inv begun = begun-Inv
  Reach-Inv (later r st) = Step-Inv st (Reach-Inv r)
