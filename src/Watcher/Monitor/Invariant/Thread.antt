-- ===== src/Watcher/Monitor/Invariant/Thread.antt =====
-- The thread of `FileWatcher` keeps what holds of the two threads.
use secure_storage.Base.{
  ℕ, suc, ◌≡◌, ◌≢◌, refl, subst, ◌∙◌, inl, inr, true, false, ◌&&◌, some, List, [], ◌∷◌, arith, ◌==◌,
  if◌then◌else◌, Bool-cases, Option-cases,
}
use secure_storage.Base.Text.{Str}
use secure_storage.Os.{Os}
use secure_storage.Inotify.{Inotify, Event}
use secure_storage.Watcher.{Watcher, leave}
use secure_storage.Watcher.Maps.Named.{IsNamed, leave-IsNamed}
use secure_storage.Watcher.Events.{WatchedEvent, is_none, process_at}
use secure_storage.Watcher.Events.Walk.{events_in, process_at_lem, find_path-cases}
use secure_storage.Watcher.Monitor.{
  Poll, interrupted, failed, ready, Reading, again, broken, filled, Monitor, at_test, in_poll,
  ended, in_events, looked_up, after_look, User, after_read, after_ready, after_poll,
}
use secure_storage.Watcher.Monitor.Frames.{process_at-Frame}
use secure_storage.Watcher.Monitor.Invariant.{
  is_active, is_present, is_idle, Inv, Inv-Frame, move-Inv, give_up-Inv,
}

module _ {World : Type 0} (ino : Inotify World) (fw : Watcher) (u : User)
    (i : Inv fw in_poll u) where
  move : (m : Monitor) → is_present m ≡ true → is_idle m ≡ true → Inv fw m u
  move m here idle = move-Inv fw in_poll m u refl here idle (λ a. refl) i

  after_read-Inv :
      (reading : Reading) → Inv (after_read ino reading fw).1 (after_read ino reading fw).0 u
  unfolding after_read
  after_read-Inv again = move at_test refl refl
  after_read-Inv broken = give_up-Inv fw in_poll u refl i
  after_read-Inv (filled len buffer) = elim (Bool-cases (len == 0)) [
    | inl e ↦ rw e (move at_test refl refl)
    | inr e ↦ rw e (elim (Option-cases (events_in ino (suc len) buffer len 0)) [
      | inl f ↦ rw f (move at_test refl refl)
      | inr (evs, f) ↦ rw f (move (in_events evs) refl refl)
    ])
  ]

  after_ready-Inv :
      (poll : Poll) (reading : Reading)
      → Inv (after_ready ino poll reading fw).1 (after_ready ino poll reading fw).0 u
  after_ready-Inv interrupted reading = move at_test refl refl
  after_ready-Inv failed reading = give_up-Inv fw in_poll u refl i
  after_ready-Inv (ready events true) reading = move ended refl refl
  after_ready-Inv (ready true false) reading = after_read-Inv reading
  after_ready-Inv (ready false false) reading = move at_test refl refl

  pub after_poll-Inv :
      (poll : Poll) (reading : Reading)
      → Inv (after_poll ino poll reading fw).1 (after_poll ino poll reading fw).0 u
  unfolding after_poll
  after_poll-Inv poll reading = elim (Bool-cases fw.is_running) [
    | inl e ↦
        let same : after_poll ino poll reading fw ≡ after_ready ino poll reading fw =
          ground arith in
        rw same (after_ready-Inv poll reading)
    | inr e ↦
        let same : after_poll ino poll reading fw ≡ (ended, fw) = ground arith in
        rw same (move ended refl refl)
  ]

module _ (os : Os) (ino : Inotify os.World) where
  pub test-Inv :
      (fw : Watcher) (m : Monitor) (u : User)
      → m ≡ at_test
      → Inv fw m u
      → Inv fw (if fw.is_running then in_poll else ended) u
  test-Inv fw m u e i =
      move-Inv fw m _ u (ground arith) (ground arith) (ground arith) (λ a. rw e refl) i

  -- What the thread has looked up has a path.
  found-Inv :
      (ev : Event) (wd : ℕ) (path : Str) (evs : List Event) (fw : Watcher) (m : Monitor) (u : User)
      → path ≢ []
      → is_present m ≡ true
      → is_active m ≡ true
      → Inv fw m u
      → Inv fw (looked_up ev wd path evs) u
  found-Inv ev wd path evs fw m u n here on i = record {
    named = i.named;
    looked = λ ev' wd' path' evs' e. let same : path ≡ path' = cc (e) in λ k. n (same ∙ k);
    thread = i.thread ∙ here;
    open_fds = λ a. i.open_fds on;
    running = λ a e. i.running on e;
    waiting = i.waiting;
    closed = i.closed;
  }

  pub look-Inv :
      (ev : Event) (evs : List Event) (fw : Watcher) (m : Monitor) (u : User)
      → m ≡ in_events (ev ∷ evs)
      → Inv fw m u
      → Inv fw (after_look ino ev evs fw) u
  unfolding after_look
  look-Inv ev evs fw m u e i =
      elim (Bool-cases (is_none ev.wd && ino.has ev.mask ino.in_q_overflow)) [
        | inl o ↦ rw (o, after_look) skipped
        | inr o ↦ elim (find_path-cases ino ev.wd fw) [
          | inl f ↦ rw (o, f, after_look) skipped
          | inr (wd, path, _, g, f) ↦
              rw (o, f, after_look)
                (found-Inv ev wd path evs fw m u (i.named.not_empty wd path g) (rw e refl)
                  (rw e refl) i)
        ]
      ]
    where
      skipped : Inv fw (in_events evs) u
      skipped = move-Inv fw m (in_events evs) u (rw e refl) refl refl (λ a. rw e refl) i

  pub handle-Inv :
      (ev : Event) (wd : ℕ) (path : Str) (evs : List Event) (watched : WatchedEvent)
      (fw fw' : Watcher) (m : Monitor) (u : User)
      → m ≡ looked_up ev wd path evs
      → process_at ino ev wd path fw ≡ some (watched, fw')
      → Inv fw m u
      → Inv fw' (in_events evs) u
  handle-Inv ev wd path evs watched fw fw' m u e h i =
      Inv-Frame fw fw' (in_events evs) u (process_at-Frame ino ev wd path watched fw fw' h)
        (subst IsNamed same after)
        (move-Inv fw m (in_events evs) u (rw e refl) refl refl (λ a. rw e refl) i)
    where
      same : (if ino.has ev.mask ino.in_ignored then leave path wd fw else fw) ≡ fw'
      same = cc (process_at_lem ino ev wd path fw (i.looked ev wd path evs e), h)

      after : IsNamed (if ino.has ev.mask ino.in_ignored then leave path wd fw else fw)
      after = elim (Bool-cases (ino.has ev.mask ino.in_ignored)) [
        | inl t ↦ rw t (leave-IsNamed path wd fw i.named)
        | inr t ↦ rw t i.named
      ]
