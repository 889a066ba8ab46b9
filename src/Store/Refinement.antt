-- ===== src/Store/Refinement.antt =====
-- What `SecureStore` promises: the versions of the data of each id, and the runs of the operations as runs
-- of them.
pub mod Runs
pub mod Cells
pub mod Frame
pub mod Storing
pub mod Deleting
pub mod Retrieving
pub mod Asking
pub mod Restarting
pub mod Calls
pub mod Simulation
pub mod Origin
use mathlib.Core.List.{Memᴰ}
use secure_storage.Base.{ℕ, ◌≡◌, ◌≢◌, Bool, true, false, none, some, List, [], ◌∷◌, if◌then◌else◌}
use secure_storage.Base.Text.{IsPlain, Str, Bytes, str_eq}
use secure_storage.Error.{Errc, success}
use secure_storage.Os.{Os}
use secure_storage.Os.Posix.{IsPosix, contents?}
use secure_storage.Crypto.{Mbedtls}
use secure_storage.Naming.Roles.{Role, entry}
use secure_storage.Naming.Order.{IsAscending}
use secure_storage.Store.{
  SecureStore, store_data, retrieve_data, delete_data, data_exists, list_data_ids,
}

-- The abstract state: what was stored for each id since its last deletion, the newest first.
abbrev pub Versions : Type 0
Versions = Str → List Bytes

abbrev pub change : Str → List Bytes → Versions → Versions
change data_id l m q = if str_eq q data_id then l else m q

-- A list of versions that has lost some of the newest ones, but not the last one.
pub data RollsBack : List Bytes → List Bytes → Type 0 where
  keeps : {l : List Bytes} → RollsBack l l
  drops : {u v : Bytes} {l l' : List Bytes} → RollsBack (u ∷ l) l' → RollsBack (v ∷ u ∷ l) l'

abbrev pub some_version : List Bytes → Bool
some_version [] = false
some_version (v ∷ l) = true

-- What an application sees: the calls of the five operations, with what they give, and the restarts.
-- `unstored`, `undeleted`, `missed` and `unlisted` are the calls that report an error; `store_cut`,
-- `delete_cut` and `retrieve_cut` are those in which the process dies, and a restart after it.
pub data Event : Type 0 where
  stored unstored found : Str → Bytes → Event
  deleted undeleted missed : Str → Event
  asked : Str → Bool → Event
  listed : List Str → Event
  unlisted restarted : Event
  store_cut : Str → Bytes → Event
  delete_cut retrieve_cut : Str → Event

-- The runs of the versions.
pub data Plays : Versions → List Event → Versions → Type 0 where
  p_done : {m : Versions} → Plays m [] m
  p_stored :
      {m m' : Versions} {es : List Event} {data_id : Str} {plain : Bytes}
      → Plays (change data_id (plain ∷ m data_id) m) es m'
      → Plays m (stored data_id plain ∷ es) m'
  p_unstored :
      {m m' : Versions} {es : List Event} {data_id : Str} {plain : Bytes}
      → Plays m es m'
      → Plays m (unstored data_id plain ∷ es) m'
  p_deleted :
      {m m' : Versions} {es : List Event} {data_id : Str}
      → Plays (change data_id [] m) es m'
      → Plays m (deleted data_id ∷ es) m'
  p_undeleted :
      {m m' : Versions} {es : List Event} {data_id : Str} {l : List Bytes}
      → RollsBack (m data_id) l
      → Plays (change data_id l m) es m'
      → Plays m (undeleted data_id ∷ es) m'
  p_found :
      {m m' : Versions} {es : List Event} {data_id : Str} {plain : Bytes} {l : List Bytes}
      → m data_id ≡ plain ∷ l
      → Plays m es m'
      → Plays m (found data_id plain ∷ es) m'
  p_missed :
      {m m' : Versions} {es : List Event} {data_id : Str}
      → m data_id ≡ []
      → Plays m es m'
      → Plays m (missed data_id ∷ es) m'
  p_asked :
      {m m' : Versions} {es : List Event} {data_id : Str} {b : Bool}
      → some_version (m data_id) ≡ b
      → Plays m es m'
      → Plays m (asked data_id b ∷ es) m'
  p_listed :
      {m m' : Versions} {es : List Event} {ids : List Str}
      → IsAscending ids
      → ((q : Str) → Memᴰ q ids → m q ≢ [])
      → Plays m es m'
      → Plays m (listed ids ∷ es) m'
  p_unlisted : {m m' : Versions} {es : List Event} → Plays m es m' → Plays m (unlisted ∷ es) m'
  p_restarted : {m m' : Versions} {es : List Event} → Plays m es m' → Plays m (restarted ∷ es) m'
  -- A call that the process does not survive has its effect, or that of a failure.
  p_store_cut_stored :
      {m m' : Versions} {es : List Event} {data_id : Str} {plain : Bytes}
      → Plays m (stored data_id plain ∷ es) m'
      → Plays m (store_cut data_id plain ∷ es) m'
  p_store_cut_unstored :
      {m m' : Versions} {es : List Event} {data_id : Str} {plain : Bytes}
      → Plays m (unstored data_id plain ∷ es) m'
      → Plays m (store_cut data_id plain ∷ es) m'
  p_delete_cut_deleted :
      {m m' : Versions} {es : List Event} {data_id : Str}
      → Plays m (deleted data_id ∷ es) m'
      → Plays m (delete_cut data_id ∷ es) m'
  p_delete_cut_undeleted :
      {m m' : Versions} {es : List Event} {data_id : Str}
      → Plays m (undeleted data_id ∷ es) m'
      → Plays m (delete_cut data_id ∷ es) m'
  p_retrieve_cut :
      {m m' : Versions} {es : List Event} {data_id : Str}
      → Plays m es m'
      → Plays m (retrieve_cut data_id ∷ es) m'

module _ (os : Os) (P : IsPosix os) where
  -- An id with no NUL byte, at whose paths there are regular files or nothing.
  abbrev pub OnlyFiles : Str → Str → os.World → Type 0
  OnlyFiles root data_id w =
      IsPlain data_id
      × ((r : Role)
          → contents? (P.node w (entry root data_id r)) ≡ none
          → P.node w (entry root data_id r) ≡ none)
