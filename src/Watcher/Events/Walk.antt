-- ===== src/Watcher/Events/Walk.antt =====
-- The inner loop of `monitorLoop` over a buffer of events.
use secure_storage.Base.{
  false, true, ◌≤◌, ℕ, zero, suc, ◌+◌, ◌-◌, ◌<◌, ◌≡◌, ◌≢◌, refl, ◌∙◌, ◌⊎◌, inl, inr, not, ◌&&◌,
  Option, none, some, List, [], ◌∷◌, ◌++◌, arith, ltb, ◌==◌, if◌then◌else◌, Bool-cases,
  Option-cases,
}
use secure_storage.Base.Text.{Str, Bytes}
use secure_storage.Inotify.{Inotify, Event}
use secure_storage.Watcher.{Watcher, path_of, leave}
use secure_storage.Watcher.Maps.{IsPaired, leave-IsPaired}
use secure_storage.Watcher.Events.{
  WatchedEvent, full_item_path, event_mask_to_string, process_at, process_event, handle_event, walk,
  find_path, is_none,
}

module _ {World : Type 0} (ino : Inotify World) where
  -- The events that stand in a buffer from index `i`, one behind the other.
  pub events_in : ℕ → Bytes → ℕ → ℕ → Option (List Event)
  events_in zero buffer len i = none
  events_in (suc fuel) buffer len i =
      if not (ltb i len)
      then some []
      else let ev = ino.event_at buffer i in
        elim (events_in fuel buffer len (i + (ino.header_size + ev.len))) [
          | none ↦ none
          | some evs ↦ some (ev ∷ evs)
        ]

  -- The events handled one after another.
  pub handle_all : List Event → Watcher → Option (List WatchedEvent × Watcher)
  handle_all [] fw = some ([], fw)
  handle_all (ev ∷ evs) fw = elim (handle_event ino ev fw) [
    | none ↦ none
    | some (out, fw') ↦ elim (handle_all evs fw') [
      | none ↦ none
      | some (rest, fw'') ↦ some (out ++ rest, fw'')
    ]
  ]

  pub events_in_total :
      (fuel : ℕ) (buffer : Bytes) (len i : ℕ)
      → 0 < ino.header_size
      → len - i < fuel
      → (evs : List Event) × (events_in fuel buffer len i ≡ some evs)
  unfolding events_in
  events_in_total zero buffer len i h l = elim l [ ]
  events_in_total (suc fuel) buffer len i h l = elim (Bool-cases (ltb i len)) [
    | inr e ↦ ([], rw (e, events_in) refl)
    | inl e ↦
        let ev : Event = ino.event_at buffer i in
        let (evs, f) =
          events_in_total fuel buffer len (i + (ino.header_size + ev.len)) h (ground arith) in
        (ev ∷ evs, rw (e, f, events_in) refl)
  ]

  -- From an index on, the bytes that were read are whole events, as the kernel gives them.
  pub data Whole (buffer : Bytes) (len : ℕ) : ℕ → Type 0 where
    w_end : Whole buffer len len
    w_event :
        {i : ℕ}
        → (i + (ino.header_size + (ino.event_at buffer i).len)) ≤ len
        → Whole buffer len (i + (ino.header_size + (ino.event_at buffer i).len))
        → Whole buffer len i

  Whole-next :
      (buffer : Bytes) (len i : ℕ)
      → ltb i len ≡ true
      → Whole buffer len i
      → let next = i + (ino.header_size + (ino.event_at buffer i).len) in
        (ltb len next ≡ false) × Whole buffer len next
  Whole-next buffer len _ e w_end = absurd (ground arith)
  Whole-next buffer len i e (w_event fits rest) = (ground arith, rest)

  -- The walk is the handling of the events in the buffer.
  pub walk_lem :
      (fuel : ℕ) (buffer : Bytes) (len i : ℕ) (evs : List Event) (fw : Watcher)
      → Whole buffer len i
      → events_in fuel buffer len i ≡ some evs
      → walk ino fuel buffer len i fw ≡ handle_all evs fw
  unfolding walk events_in handle_all
  walk_lem zero buffer len i evs fw whole h = absurd (cc)
  walk_lem (suc fuel) buffer len i evs fw whole h = elim (Bool-cases (ltb i len)) [
    | inr e ↦ let nil : [] ≡ evs = ground arith in rw (e, ← nil) refl
    | inl e ↦
        elim (Option-cases
          (events_in fuel buffer len (i + (ino.header_size + (ino.event_at buffer i).len)))) [
            | inl f ↦ absurd (ground arith)
            | inr (rest, f) ↦
                let same : ino.event_at buffer i ∷ rest ≡ evs = ground arith in
                let (fits, whole') = Whole-next buffer len i e whole in
                rw (e, fits, ← same)
                  (elim (Option-cases (handle_event ino (ino.event_at buffer i) fw)) [
                    | inl g ↦ rw (g, handle_all) refl
                    | inr (r, g) ↦
                        rw
                          (
                            g,
                            walk_lem fuel buffer len
                                (i + (ino.header_size + (ino.event_at buffer i).len)) rest r.1
                                whole' f,
                            handle_all,
                          )
                          refl
                  ])
          ]
  ]

  full_item_path-some :
      (path name : Str) → path ≢ [] → (full : Str) × (full_item_path path name ≡ some full)
  unfolding full_item_path
  full_item_path-some [] name n = absurd (n refl)
  full_item_path-some (c ∷ path) [] n = (c ∷ path, refl)
  full_item_path-some (c ∷ path) (d ∷ name) n = (_, refl)

  -- The event that the callback gets for an event of a path.
  abbrev pub reported : Event → Str → WatchedEvent
  reported ev path = record {
    file_path = path;
    file_name = if ev.len == 0 then [] else ev.name;
    mask = ev.mask;
    is_dir = ino.has ev.mask ino.in_isdir;
    event_name_str = event_mask_to_string ino ev.mask;
  }

  pub process_at_lem :
      (ev : Event) (wd : ℕ) (path : Str) (fw : Watcher)
      → path ≢ []
      → process_at ino ev wd path fw
        ≡ some (reported ev path, if ino.has ev.mask ino.in_ignored then leave path wd fw else fw)
  unfolding process_at
  process_at_lem ev wd path fw n =
      let (full, e) = full_item_path-some path (if ev.len == 0 then [] else ev.name) n in
      rw (e, process_at) refl

  -- The paths that the map has for descriptors.
  abbrev pub Watched : Watcher → Str → Type 0
  Watched fw path = (wd : ℕ) × (path_of wd fw.wd_to_path ≡ some path)

  ignored-IsPaired :
      (ev : Event) (wd : ℕ) (path : Str) (fw : Watcher)
      → IsPaired fw
      → path_of wd fw.wd_to_path ≡ some path
      → IsPaired (if ino.has ev.mask ino.in_ignored then leave path wd fw else fw)
  ignored-IsPaired ev wd path fw p e = elim (Bool-cases (ino.has ev.mask ino.in_ignored)) [
    | inl h ↦ rw h (leave-IsPaired path wd fw p (p.back wd path e))
    | inr h ↦ rw h p
  ]

  pub find_path-cases :
      (o : Option ℕ) (fw : Watcher)
      → (find_path o fw ≡ none)
        ⊎ ((wd : ℕ) × (path : Str) × (o ≡ some wd)
            × (path_of wd fw.wd_to_path ≡ some path)
            × (find_path o fw ≡ some (wd, path)))
  find_path-cases none fw = inl refl
  find_path-cases (some wd) fw = elim (Option-cases (path_of wd fw.wd_to_path)) [
    | inl e ↦ inl (rw (e, find_path) refl)
    | inr (path, e) ↦ inr (wd, path, refl, e, rw (e, find_path) refl)
  ]

  -- What handling an event gives.
  pub record Handled (ev : Event) (fw : Watcher) : Type 0 where
    pub out : List WatchedEvent
    pub after : Watcher
    pub eq : handle_event ino ev fw ≡ some (out, after)
    pub paired : IsPaired after
    pub out_is :
        (out ≡ [])
        ⊎ ((wd : ℕ) × (path : Str) × (ev.wd ≡ some wd)
            × (path_of wd fw.wd_to_path ≡ some path)
            × (out ≡ reported ev path ∷ []))

  process_event-Handled :
      (ev : Event) (fw : Watcher)
      → IsPaired fw
      → handle_event ino ev fw ≡ process_event ino ev fw
      → Handled ev fw
  unfolding process_event
  process_event-Handled ev fw p same = elim (find_path-cases ev.wd fw) [
    | inl e ↦ record {
      out = [];
      after = fw;
      eq = same ∙ rw (e, process_event) refl;
      paired = p;
      out_is = inl refl;
    }
    | inr (wd, path, f, g, e) ↦ record {
      out = reported ev path ∷ [];
      after = if ino.has ev.mask ino.in_ignored then leave path wd fw else fw;
      eq = same ∙ rw (e, process_at_lem ev wd path fw (p.not_empty wd path g), process_event) refl;
      paired = ignored-IsPaired ev wd path fw p g;
      out_is = inr (wd, path, f, g, refl);
    }
  ]

  -- For maps that are paired, an event is handled without undefined behaviour, and leaves them paired.
  -- The callback gets at most one event, of a path that the map had for its descriptor.
  pub handle_event-Handled : (ev : Event) (fw : Watcher) → IsPaired fw → Handled ev fw
  unfolding handle_event
  handle_event-Handled ev fw p =
      elim (Bool-cases (is_none ev.wd && ino.has ev.mask ino.in_q_overflow)) [
        | inl o ↦ record {
          out = [];
          after = fw;
          eq = rw (o, handle_event) refl;
          paired = p;
          out_is = inl refl;
        }
        | inr o ↦ process_event-Handled ev fw p (rw (o, handle_event) refl)
      ]

  handle_all-total :
      (evs : List Event) (fw : Watcher)
      → IsPaired fw
      → (r : List WatchedEvent × Watcher) × (handle_all evs fw ≡ some r) × IsPaired r.1
  unfolding handle_all
  handle_all-total [] fw p = (([], fw), refl, p)
  handle_all-total (ev ∷ evs) fw p =
      let h = handle_event-Handled ev fw p in
      let (r, e, q) = handle_all-total evs h.after h.paired in
      ((h.out ++ r.0, r.1), rw (h.eq, e, handle_all) refl, q)

  -- For a header of an event that is not empty, bytes that are whole events one after the other,
  -- and maps where each path that a descriptor leads to is not empty and leads to this descriptor:
  -- the inner loop of `monitorLoop` ends, without an event beyond the bytes that were read and
  -- without the last character of an empty path, it handles exactly the events that stand in the
  -- buffer one after the other, in their order, and the maps are so afterwards.
  pub walk_total :
      (buffer : Bytes) (len : ℕ) (fw : Watcher)
      → 0 < ino.header_size
      → Whole buffer len 0
      → IsPaired fw
      → (evs : List Event) × (r : List WatchedEvent × Watcher) × (events_in (suc len) buffer len 0
          ≡ some evs)
        × (walk ino (suc len) buffer len 0 fw ≡ some r)
        × (handle_all evs fw ≡ some r)
        × IsPaired r.1
  walk_total buffer len fw h whole p =
      let (evs, e) = events_in_total (suc len) buffer len 0 h (omega arith) in
      let (r, f, q) = handle_all-total evs fw p in
      (evs, r, e, walk_lem (suc len) buffer len 0 evs fw whole e ∙ f, f, q)
