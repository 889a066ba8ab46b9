-- ===== src/Manager/Client.antt =====
-- What an application can observe of `SecureStorageManager` over any sequence of calls.
pub mod Refinement
use secure_storage.Base.{Bool, Option, none, some, List, [], ◌∷◌, ◌++◌, if◌then◌else◌}
use secure_storage.Base.Text.{Str, Bytes}
use secure_storage.Error.{Errc, is_success}
use secure_storage.Os.{Os}
use secure_storage.Crypto.{Mbedtls}
use secure_storage.Store.{SecureStore}
use secure_storage.Store.Refinement.{
  Event, stored, unstored, deleted, undeleted, found, missed, asked, listed, unlisted,
}
use secure_storage.Manager.{
  Manager, store_data, retrieve_data, delete_data, data_exists, list_data_ids,
}
use secure_storage.Manager.Operations.{core}

pub data Call : Type 0 where
  storing : Str → Bytes → Call
  retrieving deleting asking : Str → Call
  listing : Call

module _ (os : Os) (mb : Mbedtls) where
  open os use {World}

  abbrev pub retrieved :
      Str → Option (Errc × Bytes × World) → Manager mb → Option (Event × Manager mb × World)
  retrieved data_id none m = none
  retrieved data_id (some (e, out, w)) m =
      some (if is_success e then found data_id out else missed data_id, m, w)

  abbrev pub removed :
      Str → Option (Errc × World) → Manager mb → Option (Event × Manager mb × World)
  removed data_id none m = none
  removed data_id (some (e, w)) m =
      some (if is_success e then deleted data_id else undeleted data_id, m, w)

  abbrev pub saved :
      Str → Bytes → Option (Errc × Manager mb × World) → Option (Event × Manager mb × World)
  saved data_id plain none = none
  saved data_id plain (some (e, m, w)) =
      some (if is_success e then stored data_id plain else unstored data_id plain, m, w)

  abbrev pub answered : Str → Option Bool → Manager mb → World → Option (Event × Manager mb × World)
  answered data_id none m w = none
  answered data_id (some b) m w = some (asked data_id b, m, w)

  abbrev pub given :
      Option (Errc × List Str) → Manager mb → World → Option (Event × Manager mb × World)
  given none m w = none
  given (some (e, ids)) m w = some (if is_success e then listed ids else unlisted, m, w)

  -- One call, with what it gives.
  unfoldable pub serve : Call → Manager mb → World → Option (Event × Manager mb × World)
  serve (storing i plain) m w = saved i plain (store_data os mb i plain m w)
  serve (retrieving i) m w = retrieved i (retrieve_data os mb i m w) m
  serve (deleting i) m w = removed i (delete_data os mb i m w) m
  serve (asking i) m w = answered i (data_exists os mb i m w) m w
  serve listing m w = given (list_data_ids os mb m w) m w

  -- The root path, the id and the world of a call on an id.
  abbrev pub place_of : Call → Manager mb → World → List (Str × Str × World)
  place_of (storing i plain) m w = ((core mb m).root_storage_path, i, w) ∷ []
  place_of (retrieving i) m w = ((core mb m).root_storage_path, i, w) ∷ []
  place_of (deleting i) m w = ((core mb m).root_storage_path, i, w) ∷ []
  place_of (asking i) m w = ((core mb m).root_storage_path, i, w) ∷ []
  place_of listing m w = []

  -- The calls one after another: what they give, and where they are made.
  unfoldable pub serve_all :
      List Call
      → Manager mb
      → World
      → Option (List Event × List (Str × Str × World) × Manager mb × World)
  serve_all [] m w = some ([], [], m, w)
  serve_all (c ∷ cs) m w = elim (serve c m w) [
    | none ↦ none
    | some (e, m1, w1) ↦ elim (serve_all cs m1 w1) [
      | none ↦ none
      | some (es, places, m', w') ↦ some (e ∷ es, place_of c m w ++ places, m', w')
    ]
  ]
