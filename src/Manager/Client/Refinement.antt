-- ===== src/Manager/Client/Refinement.antt =====
-- Every sequence of calls of `SecureStorageManager` is a run of the versions.
use mathlib.Core.List.{Memᴰ}
use secure_storage.Base.{
  ◌≡◌, refl, ap, ◌∙◌, inl, inr, some, List, [], ◌∷◌, ◌++◌, Bool-cases, Option-cases,
}
use secure_storage.Base.Text.{IsPlain, Str, Bytes}
use secure_storage.Error.{is_success, is_success_iff}
use secure_storage.Os.{Os}
use secure_storage.Os.Posix.{IsPosix, IsFaultless}
use secure_storage.Crypto.{Mbedtls, IsLawful}
use secure_storage.Store
use secure_storage.Store.{SecureStore}
use secure_storage.Store.Lifecycle.{IsSound, retrieve_data-total}
use secure_storage.Store.Refinement.{
  Versions, Event, stored, unstored, deleted, undeleted, found, missed, asked, listed, unlisted,
  Plays, OnlyFiles,
}
use secure_storage.Store.Refinement.Runs.{
  Runs, r_done, r_stored, r_unstored, r_deleted, r_undeleted, r_found, r_missed, r_asked, r_listed,
  r_unlisted, visited,
}
use secure_storage.Store.Refinement.Calls.{Holding}
use secure_storage.Store.Refinement.Simulation.{store-refines}
use secure_storage.Manager.{Manager}
use secure_storage.Manager.Construction.{IsManagedOrMoved}
use secure_storage.Manager.Operations.{core, manager-cases, store_data_lem, operations_lem}
use secure_storage.Manager.Client.{
  Call, storing, retrieving, deleting, asking, listing, serve, place_of, serve_all,
}

mem_after {ℓ} :
    {A : Type ℓ} {x : A} (l : List A) {a b : List A}
    → (Memᴰ x a → Memᴰ x b)
    → Memᴰ x (l ++ a)
    → Memᴰ x (l ++ b)
mem_after [] f is_in = f is_in
mem_after (y ∷ l) f (Memᴰ.head e) = Memᴰ.head e
mem_after (y ∷ l) f (Memᴰ.tail is_in) = Memᴰ.tail (mem_after l f is_in)

module _ (os : Os) (mb : Mbedtls) (L : IsLawful mb) (root serial : Str) where
  -- A call of the manager, in front of a run of the store.
  record Served (c : Call) (m : Manager mb) (w : os.World) : Type 0 where
    event : Event
    m1 : Manager mb
    w1 : os.World
    eq : serve os mb c m w ≡ some (event, m1, w1)
    managed : IsManagedOrMoved mb m1
    before :
        (s' : SecureStore mb) (w' : os.World) (es : List Event)
        (rest : Runs os mb root serial (core mb m1) w1 es s' w')
        → (run : Runs os mb root serial (core mb m) w (event ∷ es) s' w') × ((x : Str × Str
              × os.World)
            → Memᴰ x (visited os mb root serial run)
            → Memᴰ x (place_of os mb c m w ++ visited os mb root serial rest))

  module _ (m : Manager mb) (w : os.World) (managed : IsManagedOrMoved mb m) where
    Served-store : (i : Str) (plain : Bytes) → Served (storing i plain) m w
    unfolding serve
    Served-store i plain =
        let (e, m1, w1, here, there, managed1) = store_data_lem os mb m w managed i plain in
        elim (Bool-cases (is_success e)) [
          | inl t ↦ record {
            event = stored i plain;
            m1 = m1;
            w1 = w1;
            eq = rw (serve, here, t) refl;
            managed = managed1;
            before = λ s' w' es rest. (
              r_stored (there ∙ ap (λ x. some (x, core mb m1, w1)) ((is_success_iff e).0 t)) rest,
              λ x at. at,
            );
          }
          | inr f ↦ record {
            event = unstored i plain;
            m1 = m1;
            w1 = w1;
            eq = rw (serve, here, f) refl;
            managed = managed1;
            before = λ s' w' es rest.
                (r_unstored e (λ k. cc (f, (is_success_iff e).1 k)) there rest, λ x at. at);
          }
        ]

    core-IsSound : IsSound mb (core mb m)
    core-IsSound = elim (manager-cases mb m managed) [
      | inl (_, none_there) ↦ inl (ap (λ s. s.initialized) none_there)
      | inr (_, _, ready) ↦ inr ready
    ]

    Served-retrieve : (i : Str) → Served (retrieving i) m w
    unfolding serve
    Served-retrieve i =
        let same = (operations_lem os mb m w managed i).0 in
        elim (Option-cases (Store.retrieve_data os mb i (core mb m) w)) [
          | inl e ↦ absurd (retrieve_data-total os mb i (core mb m) w core-IsSound e)
          | inr ((e, out, w1), there) ↦ elim (Bool-cases (is_success e)) [
            | inl t ↦ record {
              event = found i out;
              m1 = m;
              w1 = w1;
              eq = rw (serve, same, there, t) refl;
              managed = managed;
              before = λ s' w' es rest. (
                r_found (there ∙ ap (λ x. some (x, out, w1)) ((is_success_iff e).0 t)) rest,
                λ x at. at,
              );
            }
            | inr f ↦ record {
              event = missed i;
              m1 = m;
              w1 = w1;
              eq = rw (serve, same, there, f) refl;
              managed = managed;
              before = λ s' w' es rest.
                  (r_missed e out (λ k. cc (f, (is_success_iff e).1 k)) there rest, λ x at. at);
            }
          ]
        ]

    Served-delete : (i : Str) → Served (deleting i) m w
    unfolding serve
    Served-delete i =
        let same = (operations_lem os mb m w managed i).1 in
        let e = (Store.delete_data os mb i (core mb m) w).0 in
        let w1 = (Store.delete_data os mb i (core mb m) w).1 in
        elim (Bool-cases (is_success e)) [
          | inl t ↦ record {
            event = deleted i;
            m1 = m;
            w1 = w1;
            eq = rw (serve, same, t) refl;
            managed = managed;
            before = λ s' w' es rest.
                (r_deleted (λ x. ((is_success_iff e).0 t x, w1)) rest, λ x at. Memᴰ.tail at);
          }
          | inr f ↦ record {
            event = undeleted i;
            m1 = m;
            w1 = w1;
            eq = rw (serve, same, f) refl;
            managed = managed;
            before = λ s' w' es rest.
                (r_undeleted e (λ k. cc (f, (is_success_iff e).1 k)) refl rest, λ x at. at);
          }
        ]

    Served-ask : (i : Str) → Served (asking i) m w
    unfolding serve
    Served-ask i = record {
      event = asked i (Store.data_exists os mb i (core mb m) w);
      m1 = m;
      w1 = w;
      eq = rw (serve, (operations_lem os mb m w managed i).2) refl;
      managed = managed;
      before = λ s' w' es rest. (r_asked refl rest, λ x at. at);
    }

    Served-list : Served listing m w
    unfolding serve
    Served-list =
        let same = (operations_lem os mb m w managed []).3 in
        let e = (Store.list_data_ids os mb (core mb m) w).0 in
        let ids = (Store.list_data_ids os mb (core mb m) w).1 in
        elim (Bool-cases (is_success e)) [
          | inl t ↦ record {
            event = listed ids;
            m1 = m;
            w1 = w;
            eq = rw (serve, same, t) refl;
            managed = managed;
            before =
                λ s' w' es rest. (r_listed (λ x. ((is_success_iff e).0 t x, ids)) rest, λ x at. at);
          }
          | inr f ↦ record {
            event = unlisted;
            m1 = m;
            w1 = w;
            eq = rw (serve, same, f) refl;
            managed = managed;
            before = λ s' w' es rest.
                (r_unlisted e ids (λ k. cc (f, (is_success_iff e).1 k)) refl rest, λ x at. at);
          }
        ]

    every-Served : (c : Call) → Served c m w
    every-Served (storing i plain) = Served-store i plain
    every-Served (retrieving i) = Served-retrieve i
    every-Served (deleting i) = Served-delete i
    every-Served (asking i) = Served-ask i
    every-Served listing = Served-list

  -- All calls return, and they are a run of the store.
  record AllServed (cs : List Call) (m : Manager mb) (w : os.World) : Type 0 where
    events : List Event
    places : List (Str × Str × os.World)
    m' : Manager mb
    w' : os.World
    eq : serve_all os mb cs m w ≡ some (events, places, m', w')
    managed : IsManagedOrMoved mb m'
    run : Runs os mb root serial (core mb m) w events (core mb m') w'
    at_places : (x : Str × Str × os.World) → Memᴰ x (visited os mb root serial run) → Memᴰ x places

  all-Served :
      (cs : List Call) (m : Manager mb) (w : os.World) → IsManagedOrMoved mb m → AllServed cs m w
  unfolding serve_all
  all-Served [] m w managed = record {
    events = [];
    places = [];
    m' = m;
    w' = w;
    eq = refl;
    managed = managed;
    run = r_done;
    at_places = λ x at. at;
  }
  all-Served (c ∷ cs) m w managed =
      let one = every-Served m w managed c in
      let rest = all-Served cs one.m1 one.w1 one.managed in
      let (run, seen) = one.before (core mb rest.m') rest.w' rest.events rest.run in
      record {
        events = one.event ∷ rest.events;
        places = place_of os mb c m w ++ rest.places;
        m' = rest.m';
        w' = rest.w';
        eq = rw (serve_all, one.eq, rest.eq) refl;
        managed = rest.managed;
        run = run;
        at_places = λ x at. mem_after (place_of os mb c m w) (rest.at_places x) (seen x at);
      }

module _ (os : Os) (P : IsPosix os) (F : IsFaultless P) (mb : Mbedtls) (L : IsLawful mb)
    (root serial : Str) where
  -- For a system where reading a file does not fail, and a manager that is initialised with a store
  -- that is ready, which was opened with a root path and a serial number and holds versions of the
  -- data of ids: any sequence of calls of the manager that store, retrieve, delete, test and list
  -- returns, where the id of each such call has no NUL byte, and at its paths there are regular
  -- files or nothing; what the calls give is a run of the versions; and the store of the manager
  -- holds the versions as they are afterwards.
  pub serve_all-refines :
      (cs : List Call) (m : Manager mb) (w : os.World) (versions : Versions)
      → IsManagedOrMoved mb m
      → Holding os P mb L root serial versions (core mb m) w
      → ((events : List Event) (places : List (Str × Str × os.World)) (m' : Manager mb)
            (w' : os.World)
          → serve_all os mb cs m w ≡ some (events, places, m', w')
          → (base i : Str) (v : os.World) → Memᴰ (base, i, v) places
          → OnlyFiles os P base i v)
      → ((events : List Event) (places : List (Str × Str × os.World)) (m' : Manager mb)
            (w' : os.World)
          → serve_all os mb cs m w ≡ some (events, places, m', w')
          → (i : Str) → Memᴰ (deleted i) events
          → IsPlain i)
      → (events : List Event) × (places : List (Str × Str × os.World)) × (m' : Manager mb)
        × (w' : os.World) × (serve_all os mb cs m w ≡ some (events, places, m', w'))
        × ((versions' : Versions) × Plays versions events versions'
            × Holding os P mb L root serial versions' (core mb m') w')
  serve_all-refines cs m w versions managed holding only plain =
      let all = all-Served os mb L root serial cs m w managed in
      (
        all.events,
        all.places,
        all.m',
        all.w',
        all.eq,
        store-refines os P F mb L root serial versions all.run
            (λ base i v is_in.
              only all.events all.places all.m' all.w' all.eq base i v
                (all.at_places (base, i, v) is_in))
            (plain all.events all.places all.m' all.w' all.eq) holding,
      )
