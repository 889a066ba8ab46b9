-- ===== src/Store/Refinement/Simulation.antt =====
-- Every run of `SecureStore` is a run of the versions.
use mathlib.Core.List.{Memᴰ}
use secure_storage.Base.{refl, subst, inl, inr, List}
use secure_storage.Base.Text.{IsPlain, Str}
use secure_storage.Os.{Os}
use secure_storage.Os.Posix.{IsPosix, IsFaultless}
use secure_storage.Crypto.{Mbedtls, IsLawful}
use secure_storage.Store.{SecureStore}
use secure_storage.Store.Refinement.{
  deleted, Versions, change, Event, Plays, p_done, p_stored, p_unstored, p_deleted, p_undeleted,
  p_found, p_missed, p_asked, p_listed, p_unlisted, p_restarted, p_store_cut_stored,
  p_store_cut_unstored, p_delete_cut_deleted, p_delete_cut_undeleted, p_retrieve_cut, OnlyFiles,
}
use secure_storage.Store.Refinement.Runs.{
  Runs, r_done, r_stored, r_unstored, r_deleted, r_undeleted, r_found, r_missed, r_asked, r_listed,
  r_unlisted, r_restarted, r_store_cut, r_delete_cut, r_retrieve_cut, visited,
}
use secure_storage.Store.Refinement.Deleting.{deleted-Rep, undeleted-Rep}
use secure_storage.Store.Refinement.Retrieving.{found-step, missed-step}
use secure_storage.Store.Refinement.Asking.{asked-step, listed-step}
use secure_storage.Store.Refinement.Restarting.{Restarted-Rep}
use secure_storage.Store.Refinement.Calls.{
  Holding, stored-Holding, unstored-Holding, store_cut_step, delete_cut_step, retrieve_cut_step,
}

module _ (os : Os) (P : IsPosix os) (F : IsFaultless P) (mb : Mbedtls) (L : IsLawful mb)
    (root serial : Str) where
  -- For a system where reading a file does not fail, and a store that was opened with a root path
  -- and a serial number and that holds versions of the data of ids: take any sequence of calls of
  -- `storeData`, `retrieveData`, `deleteData`, `dataExists` and `listDataIds`, whatever they
  -- report, of restarts that give an initialised store with a seeded generator, and of calls of the
  -- first three in which the process dies, after any number of the system's calls that change
  -- something, and is restarted so, where the id of a call has no NUL byte, and where at the paths
  -- of the id of a call, unless it is a deletion that succeeds, there are regular files or nothing.
  -- It is a run of the versions, and the store holds the versions as they are afterwards. In that
  -- run a storing that succeeds adds a newest version and one that fails changes nothing; a
  -- retrieval gives the newest version, and it fails only if there is none; a deletion that
  -- succeeds takes all versions away, and one that fails takes away some of the newest or none, but
  -- not the last one; `dataExists` tells whether there is a version; a listing is in ascending
  -- order and has only ids with a version; and a call in which the process dies does what it does
  -- when it succeeds or when it fails.
  pub store-refines :
      {s s' : SecureStore mb} {w w' : os.World} {es : List Event} (m : Versions)
      (run : Runs os mb root serial s w es s' w')
      → ((base i : Str) (v : os.World)
          → Memᴰ (base, i, v) (visited os mb root serial run)
          → OnlyFiles os P base i v)
      → ((i : Str) → Memᴰ (deleted i) es → IsPlain i)
      → Holding os P mb L root serial m s w
      → (m' : Versions) × Plays m es m' × Holding os P mb L root serial m' s' w'
  store-refines m r_done only plain holding = (m, p_done, holding)
  store-refines m (r_stored {s = s} {w = w} {data_id = i} {plain = v} h rest) only plain holding =
      let (m', plays, after) =
        store-refines _ rest (λ b j u at. only b j u (Memᴰ.tail at))
          (λ j at. plain j (Memᴰ.tail at))
          (stored-Holding os P mb L root serial m s w holding i (only _ i w (Memᴰ.head refl)) v _ _
            h) in
      (m', p_stored plays, after)
  store-refines m (r_unstored {s = s} {w = w} {data_id = i} {plain = v} e n h rest) only plain
        holding =
      let (m', plays, after) =
        store-refines m rest (λ b j u at. only b j u (Memᴰ.tail at))
          (λ j at. plain j (Memᴰ.tail at))
          (unstored-Holding os P mb L root serial m s w holding i (only _ i w (Memᴰ.head refl)) v e
            _ _ n h) in
      (m', p_unstored plays, after)
  store-refines m (r_deleted {s = s} {w = w} {data_id = i} h rest) only plain (rep, opened) =
      let (m', plays, after) =
        store-refines _ rest only (λ j at. plain j (Memᴰ.tail at))
          (deleted-Rep os P mb L m s w rep i _ (plain i (Memᴰ.head refl)) h, opened) in
      (m', p_deleted plays, after)
  store-refines m (r_undeleted {s = s} {w = w} {data_id = i} e n h rest) only plain (rep, opened) =
      let (l, rolls, rep1) =
        undeleted-Rep os P mb L m s w rep i e _ (only _ i w (Memᴰ.head refl)) n h in
      let (m', plays, after) =
        store-refines (change i l m) rest (λ b j u at. only b j u (Memᴰ.tail at))
          (λ j at. plain j (Memᴰ.tail at)) (rep1, opened) in
      (m', p_undeleted rolls plays, after)
  store-refines m (r_found {s = s} {w = w} {data_id = i} {plain = v} h rest) only plain
        (rep, opened) =
      let (l, has, rep1) = found-step os P mb L m s w rep i F v _ (only _ i w (Memᴰ.head refl)) h in
      let (m', plays, after) =
        store-refines m rest (λ b j u at. only b j u (Memᴰ.tail at))
          (λ j at. plain j (Memᴰ.tail at)) (rep1, opened) in
      (m', p_found has plays, after)
  store-refines m (r_missed {s = s} {w = w} {data_id = i} e out n h rest) only plain (rep, opened) =
      let (has, same) =
        missed-step os P mb L m s w rep i F e out _ (only _ i w (Memᴰ.head refl)) n h in
      let (m', plays, after) =
        store-refines m rest (λ b j u at. only b j u (Memᴰ.tail at))
          (λ j at. plain j (Memᴰ.tail at))
          (subst (λ v. Holding os P mb L root serial m s v) same (rep, opened)) in
      (m', p_missed has plays, after)
  store-refines m (r_asked {s = s} {w = w} {data_id = i} {b = b} h rest) only plain holding =
      let (m', plays, after) =
        store-refines m rest (λ b j u at. only b j u (Memᴰ.tail at))
          (λ j at. plain j (Memᴰ.tail at)) holding in
      (
        m',
        p_asked (asked-step os P mb L m s w holding.0 i b (only _ i w (Memᴰ.head refl)) h) plays,
        after,
      )
  store-refines m (r_listed {s = s} {w = w} {ids = ids} h rest) only plain holding =
      let (ascending, listed) = listed-step os P mb L m s w holding.0 ids h in
      let (m', plays, after) = store-refines m rest only (λ j at. plain j (Memᴰ.tail at)) holding in
      (m', p_listed ascending listed plays, after)
  store-refines m (r_unlisted e ids n h rest) only plain holding =
      let (m', plays, after) = store-refines m rest only (λ j at. plain j (Memᴰ.tail at)) holding in
      (m', p_unlisted plays, after)
  store-refines m (r_restarted {s = s} {s1 = s1} {w = w} {w1 = w1} o rest) only plain
        (rep, opened) =
      let (m', plays, after) =
        store-refines m rest only (λ j at. plain j (Memᴰ.tail at))
          (Restarted-Rep os mb L root serial P m s s1 w w1 rep opened o) in
      (m', p_restarted plays, after)
  store-refines m
        (r_store_cut {s = s} {s1 = s1} {s2 = s2} {w = w} {w1 = w1} {w2 = w2} {data_id = i}
          {plain = v} {e = e} n k h o rest)
        only plain holding =
      elim (store_cut_step os P mb L root serial m s w holding i (only _ i w (Memᴰ.head refl)) n k
        s2 w1 w2 o v e s1 h) [
          | inl after1 ↦
              let (m', plays, after) =
                store-refines _ rest (λ b j u at. only b j u (Memᴰ.tail at))
                  (λ j at. plain j (Memᴰ.tail at)) after1 in
              (m', p_store_cut_stored (p_stored plays), after)
          | inr after1 ↦
              let (m', plays, after) =
                store-refines m rest (λ b j u at. only b j u (Memᴰ.tail at))
                  (λ j at. plain j (Memᴰ.tail at)) after1 in
              (m', p_store_cut_unstored (p_unstored plays), after)
        ]
  store-refines m
        (r_delete_cut {s = s} {s2 = s2} {w = w} {w1 = w1} {w2 = w2} {data_id = i} {e = e} n k h o
          rest)
        only plain holding =
      elim (delete_cut_step os P mb L root serial m s w holding i (only _ i w (Memᴰ.head refl)) n k
        s2 w1 w2 o e h) [
          | inl after1 ↦
              let (m', plays, after) =
                store-refines _ rest (λ b j u at. only b j u (Memᴰ.tail at))
                  (λ j at. plain j (Memᴰ.tail at)) after1 in
              (m', p_delete_cut_deleted (p_deleted plays), after)
          | inr (l, rolls, after1) ↦
              let (m', plays, after) =
                store-refines _ rest (λ b j u at. only b j u (Memᴰ.tail at))
                  (λ j at. plain j (Memᴰ.tail at)) after1 in
              (m', p_delete_cut_undeleted (p_undeleted rolls plays), after)
        ]
  store-refines m
        (r_retrieve_cut {s = s} {s2 = s2} {w = w} {w1 = w1} {w2 = w2} {data_id = i} {e = e}
          {out = out} n k h o rest)
        only plain holding =
      let (m', plays, after) =
        store-refines m rest (λ b j u at. only b j u (Memᴰ.tail at))
          (λ j at. plain j (Memᴰ.tail at))
          (retrieve_cut_step os P mb L root serial m s w holding i (only _ i w (Memᴰ.head refl)) n k
            s2 w1 w2 o F e out h) in
      (m', p_retrieve_cut plays, after)
