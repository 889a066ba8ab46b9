-- ===== src/Watcher/Monitor/Invariant/Methods.antt =====
-- The methods of `FileWatcher` keep what holds of the two threads.
use secure_storage.Base.{◌≡◌, refl, sym, ap, ◌∙◌, inl, inr, Bool, true, false, some, arith}
use secure_storage.Os.{Os}
use secure_storage.Inotify.{Inotify}
use secure_storage.Watcher.{Watcher, start, stop_begin, stop_end}
use secure_storage.Watcher.Maps.Named.{IsNamed, IsNamed-same}
use secure_storage.Watcher.Monitor.{Monitor, absent, at_test, User, free, joining, after_start}
use secure_storage.Watcher.Monitor.Frames.{
  start-maps, start-cases, stop_end-Closed, stop_end-IsNamed, stop_begin-cases,
}
use secure_storage.Watcher.Monitor.Invariant.{Inv, absent-thread}

module _ (os : Os) (ino : Inotify os.World) where
  after_start-same :
      (fw fw' : Watcher) (m : Monitor)
      → fw'.joinable ≡ fw.joinable
      → after_start os ino fw fw' m ≡ m
  after_start-same fw fw' m e = ground arith

  after_start-new :
      (fw fw' : Watcher) (m : Monitor)
      → fw.joinable ≡ false
      → fw'.joinable ≡ true
      → after_start os ino fw fw' m ≡ at_test
  after_start-new fw fw' m e f = ground arith

  pub start-Inv :
      (fw fw' : Watcher) (w w' : os.World) (b : Bool) (m : Monitor)
      → Inv fw m free
      → start os ino fw w ≡ some (b, fw', w')
      → Inv fw' (after_start os ino fw fw' m) free
  start-Inv fw fw' w w' b m i h = elim (start-cases os ino fw fw' w w' b h) [
    | inl e ↦ rw (after_start-same fw fw' m (ap (λ (t : Watcher). t.joinable) e), e) i
    | inr (inl (off, fresh, j, r, t)) ↦ rw (after_start-same fw fw' m j) (record {
      named = named;
      looked = i.looked;
      thread = j ∙ i.thread;
      open_fds = λ a. absurd (cc (off, i.running a refl));
      running = λ a e. absurd (cc (off, i.running a refl));
      waiting = λ e. cc;
      closed = λ e. cc;
    })
    | inr (inr (j, j', r, t, fd, pr, pw)) ↦ rw (after_start-new fw fw' m j j') (record {
      named = named;
      looked = λ ev wd path evs e. cc;
      thread = j';
      open_fds = λ a. (fd, pr, pw);
      running = λ a e. r;
      waiting = λ e. cc;
      closed = λ e. cc;
    })
  ]
    where
      named : IsNamed fw'
      named = let (e, _) = start-maps os ino fw fw' w w' b h in IsNamed-same fw fw' e i.named

  pub stop_end-Inv :
      (fw : Watcher) (w : os.World)
      → IsNamed fw
      → fw.is_running ≡ false
      → Inv (stop_end os ino fw w).0 absent free
  stop_end-Inv fw w p off =
      let c = stop_end-Closed os ino fw w off in
      record {
        named = stop_end-IsNamed os ino fw w p;
        looked = λ ev wd path evs e. cc;
        thread = c.joinable;
        open_fds = λ a. cc;
        running = λ a e. cc;
        waiting = λ e. cc;
        closed = λ e. (c, refl);
      }

  pub stop_wait-Inv :
      (fw : Watcher) (w : os.World) (m : Monitor)
      → Inv fw m free
      → fw.joinable ≡ true
      → (stop_begin os ino fw w).0 ≡ false
      → Inv (stop_begin os ino fw w).1 m joining
  stop_wait-Inv fw w m i j more =
      let (r, j', fd, pr, pw, t, e, f, c) = stop_begin-cases os ino fw w in
      record {
        named = IsNamed-same fw _ e i.named;
        looked = i.looked;
        thread = j' ∙ i.thread;
        open_fds = λ a. ground (arith, i.open_fds a, fd, pr, pw);
        running = λ a e. cc;
        waiting = λ e. (r, j' ∙ j);
        closed = λ k. absurd (cc (j, (i.closed (sym t ∙ k)).0.joinable));
      }

  pub stop_alone-Inv :
      (fw : Watcher) (w : os.World) (m : Monitor) (u : User)
      → u ≡ free
      → fw.joinable ≡ false
      → Inv fw m u
      → Inv (stop_end os ino (stop_begin os ino fw w).1 (stop_begin os ino fw w).2).0 m u
  stop_alone-Inv fw w m u f j i =
      let (r, _, _, _, _, _, e, g, _) = stop_begin-cases os ino fw w in
      rw (absent-thread m (sym i.thread ∙ j), f)
        (stop_end-Inv (stop_begin os ino fw w).1 (stop_begin os ino fw w).2
          (IsNamed-same fw _ e i.named) r)
