-- ===== src/Tests/Sessions.antt =====
-- A session of an application with the manager.
use mathlib.Core.List.Memᴰ
use mathlib.Core.List.{Memᴰ}
use secure_storage.Base.{◌≡◌, refl, sym, subst, true, some, [], ◌∷◌}
use secure_storage.Base.Text.{IsPlain, Str, codes, has_char, str_eq, back_is}
use secure_storage.Error.{success, is_success}
use secure_storage.Os.Memory.{World, memory_os, place, lookup}
use secure_storage.Os.Memory.Laws.{memory-IsPosix, memory-IsFaultless}
use secure_storage.Crypto.Toy.{toy, toy-IsLawful}
use secure_storage.Naming.{validate_data_id, has_dots, get_data_file_path, get_backup_file_path}
use secure_storage.Store
use secure_storage.Store.{
  SecureStore, back_up, restore_backup, replace_main, store_encrypted, retrieve_main,
  retrieve_backup,
}
use secure_storage.Manager.{Manager, is_initialized, retrieve_data, data_exists, list_data_ids}
use secure_storage.Manager.RoundTrip.{manager-round_trip}
use secure_storage.Manager.Operations.{core}
use mathlib.Core.List.{Memᴰ}
use mathlib.Core.List.Memᴰ
use secure_storage.FileUtil.{regular_files, entry_path}
use secure_storage.Naming.{ids_of_files, id_of_file, ends_with, sort, insert}
use secure_storage.Tests.Runs.{OnlyThere, nothing_there, one_file, empty-Rep, a_store-IsOpened}
use secure_storage.Store.Refinement.{deleted, OnlyFiles}
use secure_storage.Store.Refinement.Calls.{Holding}
use secure_storage.Manager.Client.Refinement.{serve_all-refines}
use secure_storage.Manager.Client.{Call, storing, asking, retrieving, listing, serve, serve_all}
use secure_storage.Store.Refinement.{Versions, Event, stored, asked, found, listed, Plays}
use secure_storage.Base.{List}
use secure_storage.FileUtil.{path_exists, list_directory}
use secure_storage.Tests.Stores.{readable, with_data}
use secure_storage.Tests.Values.{top, top-IsBase, an_id, some_data}
use secure_storage.Tests.Managers.{
  here, a_manager, a_manager-IsManaged, after_manager, manager_stores, no_device,
}

-- A session of the application.
abbrev session : List Call
session = storing an_id some_data ∷ asking an_id ∷ retrieving an_id ∷ listing ∷ []

abbrev answers : List Event
answers =
    stored an_id some_data ∷ asked an_id true ∷ found an_id some_data ∷ listed (an_id ∷ []) ∷ []

abbrev visits : List (Str × Str × World)
visits = (top, an_id, here) ∷ (top, an_id, with_data) ∷ (top, an_id, with_data) ∷ []

asks : data_exists memory_os toy an_id after_manager with_data ≡ some true
unfolding data_exists is_initialized Store.data_exists path_exists place lookup str_eq
    validate_data_id has_dots has_char get_data_file_path get_backup_file_path is_success
asks = refl

finds :
    retrieve_data memory_os toy an_id after_manager with_data ≡ some (success, some_data, with_data)
finds =
    manager-round_trip memory_os memory-IsPosix toy toy-IsLawful a_manager here a_manager-IsManaged
      top-IsBase an_id some_data after_manager with_data no_device manager_stores readable

lists : list_data_ids memory_os toy after_manager with_data ≡ some (success, an_id ∷ [])
unfolding list_data_ids is_initialized Store.list_data_ids list_directory regular_files entry_path
    ids_of_files id_of_file ends_with validate_data_id has_dots has_char sort insert is_success
    place lookup str_eq back_is
lists = refl

serves :
    serve_all memory_os toy session a_manager here
    ≡ some (answers, visits, after_manager, with_data)
unfolding serve_all serve is_success
serves = rw (serve_all, serve, manager_stores, asks, finds, lists) refl

session-OnlyFiles :
    (events : List Event) (places : List (Str × Str × World)) (m' : Manager toy) (w' : World)
    → serve_all memory_os toy session a_manager here ≡ some (events, places, m', w')
    → (base i : Str) (v : World) → Memᴰ (base, i, v) places
    → OnlyFiles memory_os memory-IsPosix base i v
session-OnlyFiles events places m' w' h base i v is_in =
    at_visit (subst (λ p. Memᴰ (base, i, v) p) same is_in)
  where
    same : places ≡ visits
    same = cc (serves, h)

    at_visit : {x : Str × Str × World} → Memᴰ x visits → OnlyThere x
    at_visit (Memᴰ.head e) = subst OnlyThere (sym e) nothing_there
    at_visit (Memᴰ.tail (Memᴰ.head e)) = subst OnlyThere (sym e) one_file
    at_visit (Memᴰ.tail (Memᴰ.tail (Memᴰ.head e))) = subst OnlyThere (sym e) one_file
    at_visit (Memᴰ.tail (Memᴰ.tail (Memᴰ.tail rest))) = absurd (Memᴰ.not-nil rest)

session-IsPlain :
    (events : List Event) (places : List (Str × Str × World)) (m' : Manager toy) (w' : World)
    → serve_all memory_os toy session a_manager here ≡ some (events, places, m', w')
    → (i : Str) → Memᴰ (deleted i) events
    → IsPlain i
session-IsPlain events places m' w' h i is_in =
    in_answers (subst (λ l. Memᴰ (deleted i) l) same is_in)
  where
    same : events ≡ answers
    same = cc (serves, h)

    in_answers : Memᴰ (deleted i) answers → IsPlain i
    in_answers (Memᴰ.head e) = absurd (cc)
    in_answers (Memᴰ.tail (Memᴰ.head e)) = absurd (cc)
    in_answers (Memᴰ.tail (Memᴰ.tail (Memᴰ.head e))) = absurd (cc)
    in_answers (Memᴰ.tail (Memᴰ.tail (Memᴰ.tail (Memᴰ.head e)))) = absurd (cc)
    in_answers (Memᴰ.tail (Memᴰ.tail (Memᴰ.tail (Memᴰ.tail rest)))) = absurd (Memᴰ.not-nil rest)

serve_all-refines_example :
    (events : List Event) × (places : List (Str × Str × World)) × (m' : Manager toy) × (w' : World)
    × (serve_all memory_os toy session a_manager here ≡ some (events, places, m', w'))
    × ((versions' : Versions) × Plays (λ q. []) events versions'
        × Holding memory_os memory-IsPosix toy toy-IsLawful top
            (codes "S1")
            versions'
            (core toy m')
            w')
serve_all-refines_example =
    serve_all-refines memory_os memory-IsPosix memory-IsFaultless toy toy-IsLawful top (codes "S1")
      session a_manager here (λ q. []) a_manager-IsManaged (empty-Rep, a_store-IsOpened)
      session-OnlyFiles session-IsPlain
