-- ===== src/Store/Refinement/Runs.antt =====
-- The runs of `SecureStore`: its calls, whatever they report, deaths of the process and restarts.
use secure_storage.Base.{ℕ, ◌≡◌, ◌≢◌, Bool, true, some, List, [], ◌∷◌}
use secure_storage.Base.Text.{Str, Bytes}
use secure_storage.Error.{Errc, success}
use secure_storage.Os.{Os}
use secure_storage.Os.Crash.{mortal}
use secure_storage.Crypto.{Mbedtls}
use secure_storage.Crypto.Encryptor.{default_seed}
use secure_storage.Store.{
  SecureStore, secure_store, store_data, retrieve_data, delete_data, data_exists, list_data_ids,
}
use secure_storage.Store.Refinement.{
  Event, stored, unstored, deleted, undeleted, found, missed, asked, listed, unlisted, restarted,
  store_cut, delete_cut, retrieve_cut,
}

module _ (os : Os) (mb : Mbedtls) where
  -- A new process opens the store, with a generator that the system could seed.
  pub record Restarted (root serial : Str) (w : os.World) (s' : SecureStore mb) (w' : os.World)
      : Type 0 where
    pub entropy : mb.Rng
    pub opened : secure_store os mb root serial entropy w ≡ (s', w')
    pub initialized : s'.initialized ≡ true
    pub seeded : (mb.seed entropy default_seed).0 ≡ true

module _ (os : Os) (mb : Mbedtls) (root serial : Str) where
  -- The runs of the store that is opened with a root path and a serial number. In a call that is cut
  -- off, the process does some number of the calls of the system that change something, and dies.
  pub data Runs : SecureStore mb → os.World → List Event → SecureStore mb → os.World → Type 0 where
    r_done : {s : SecureStore mb} {w : os.World} → Runs s w [] s w
    r_stored :
        {s s1 s' : SecureStore mb} {w w1 w' : os.World} {es : List Event} {data_id : Str}
        {plain : Bytes}
        → store_data os mb data_id plain s w ≡ some (success, s1, w1)
        → Runs s1 w1 es s' w'
        → Runs s w (stored data_id plain ∷ es) s' w'
    r_unstored :
        {s s1 s' : SecureStore mb} {w w1 w' : os.World} {es : List Event} {data_id : Str}
        {plain : Bytes} (e : Errc)
        → e ≢ success
        → store_data os mb data_id plain s w ≡ some (e, s1, w1)
        → Runs s1 w1 es s' w'
        → Runs s w (unstored data_id plain ∷ es) s' w'
    r_deleted :
        {s s' : SecureStore mb} {w w1 w' : os.World} {es : List Event} {data_id : Str}
        → delete_data os mb data_id s w ≡ (success, w1)
        → Runs s w1 es s' w'
        → Runs s w (deleted data_id ∷ es) s' w'
    r_undeleted :
        {s s' : SecureStore mb} {w w1 w' : os.World} {es : List Event} {data_id : Str} (e : Errc)
        → e ≢ success
        → delete_data os mb data_id s w ≡ (e, w1)
        → Runs s w1 es s' w'
        → Runs s w (undeleted data_id ∷ es) s' w'
    r_found :
        {s s' : SecureStore mb} {w w1 w' : os.World} {es : List Event} {data_id : Str}
        {plain : Bytes}
        → retrieve_data os mb data_id s w ≡ some (success, plain, w1)
        → Runs s w1 es s' w'
        → Runs s w (found data_id plain ∷ es) s' w'
    r_missed :
        {s s' : SecureStore mb} {w w1 w' : os.World} {es : List Event} {data_id : Str} (e : Errc)
        (out : Bytes)
        → e ≢ success
        → retrieve_data os mb data_id s w ≡ some (e, out, w1)
        → Runs s w1 es s' w'
        → Runs s w (missed data_id ∷ es) s' w'
    r_asked :
        {s s' : SecureStore mb} {w w' : os.World} {es : List Event} {data_id : Str} {b : Bool}
        → data_exists os mb data_id s w ≡ b
        → Runs s w es s' w'
        → Runs s w (asked data_id b ∷ es) s' w'
    r_listed :
        {s s' : SecureStore mb} {w w' : os.World} {es : List Event} {ids : List Str}
        → list_data_ids os mb s w ≡ (success, ids)
        → Runs s w es s' w'
        → Runs s w (listed ids ∷ es) s' w'
    r_unlisted :
        {s s' : SecureStore mb} {w w' : os.World} {es : List Event} (e : Errc) (ids : List Str)
        → e ≢ success
        → list_data_ids os mb s w ≡ (e, ids)
        → Runs s w es s' w'
        → Runs s w (unlisted ∷ es) s' w'
    r_restarted :
        {s s1 s' : SecureStore mb} {w w1 w' : os.World} {es : List Event}
        → Restarted os mb root serial w s1 w1
        → Runs s1 w1 es s' w'
        → Runs s w (restarted ∷ es) s' w'
    r_store_cut :
        {s s1 s2 s' : SecureStore mb} {w w1 w2 w' : os.World} {es : List Event} {data_id : Str}
        {plain : Bytes} {e : Errc} (n k : ℕ)
        → store_data (mortal os) mb data_id plain s (w, n) ≡ some (e, s1, (w1, k))
        → Restarted os mb root serial w1 s2 w2
        → Runs s2 w2 es s' w'
        → Runs s w (store_cut data_id plain ∷ es) s' w'
    r_delete_cut :
        {s s2 s' : SecureStore mb} {w w1 w2 w' : os.World} {es : List Event} {data_id : Str}
        {e : Errc} (n k : ℕ)
        → delete_data (mortal os) mb data_id s (w, n) ≡ (e, (w1, k))
        → Restarted os mb root serial w1 s2 w2
        → Runs s2 w2 es s' w'
        → Runs s w (delete_cut data_id ∷ es) s' w'
    r_retrieve_cut :
        {s s2 s' : SecureStore mb} {w w1 w2 w' : os.World} {es : List Event} {data_id : Str}
        {e : Errc} {out : Bytes} (n k : ℕ)
        → retrieve_data (mortal os) mb data_id s (w, n) ≡ some (e, out, (w1, k))
        → Restarted os mb root serial w1 s2 w2
        → Runs s2 w2 es s' w'
        → Runs s w (retrieve_cut data_id ∷ es) s' w'

  -- The roots, the ids and the worlds at which a run calls an operation on an id.
  abbrev pub visited :
      {s s' : SecureStore mb} {w w' : os.World} {es : List Event}
      → Runs s w es s' w'
      → List (Str × Str × os.World)
  visited r_done = []
  visited (r_stored {s = s} {w = w} {data_id = i} h r) = (s.root_storage_path, i, w) ∷ visited r
  visited (r_unstored {s = s} {w = w} {data_id = i} e n h r) =
      (s.root_storage_path, i, w) ∷ visited r
  visited (r_deleted h r) = visited r
  visited (r_undeleted {s = s} {w = w} {data_id = i} e n h r) =
      (s.root_storage_path, i, w) ∷ visited r
  visited (r_found {s = s} {w = w} {data_id = i} h r) = (s.root_storage_path, i, w) ∷ visited r
  visited (r_missed {s = s} {w = w} {data_id = i} e out n h r) =
      (s.root_storage_path, i, w) ∷ visited r
  visited (r_asked {s = s} {w = w} {data_id = i} h r) = (s.root_storage_path, i, w) ∷ visited r
  visited (r_listed h r) = visited r
  visited (r_unlisted e ids n h r) = visited r
  visited (r_restarted o r) = visited r
  visited (r_store_cut {s = s} {w = w} {data_id = i} n k h o r) =
      (s.root_storage_path, i, w) ∷ visited r
  visited (r_delete_cut {s = s} {w = w} {data_id = i} n k h o r) =
      (s.root_storage_path, i, w) ∷ visited r
  visited (r_retrieve_cut {s = s} {w = w} {data_id = i} n k h o r) =
      (s.root_storage_path, i, w) ∷ visited r
