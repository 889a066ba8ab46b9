-- ===== src/Store/Refinement/Cells.antt =====
-- How the files of an id hold its versions, and what the operations do to that.
use mathlib.Core.List.{Memᴰ}
use mathlib.Core.List.Memᴰ
use secure_storage.Base.{
  ◌≡◌, ◌≢◌, refl, sym, ap, subst, ◌∙◌, ◌⊎◌, inl, inr, Option, none, some, List, [], ◌∷◌, arith,
  Option-cases,
}
use secure_storage.Base.Text.{Str, Bytes}
use secure_storage.Os.{Os}
use secure_storage.Os.Posix.{IsPosix, Node, file, folder, device, contents?}
use secure_storage.Crypto.{Mbedtls, IsLawful}
use secure_storage.Crypto.Encryptor.Laws.{IsSealed}
use secure_storage.Naming.Roles.{Role, main, backup, entry}
use secure_storage.Store.Shifts.{Old, Shifted}
use secure_storage.Store.Refinement.{RollsBack, keeps, drops}

pub contents?-file :
    (n : Option Node) (bytes : Bytes) → contents? n ≡ some bytes → n ≡ some (file bytes)
contents?-file none bytes h = absurd (cc)
contents?-file (some folder) bytes h = absurd (cc)
contents?-file (some device) bytes h = absurd (cc)
contents?-file (some (file b)) bytes h = ap (λ x. some (file x)) (cc)

module _ (os : Os) (P : IsPosix os) (mb : Mbedtls) (L : IsLawful mb) (root : Str) (key : Bytes)
    (data_id : Str) where
  abbrev pub at : Role → Str
  at r = entry root data_id r

  abbrev pub kept_in : Role → os.World → Option Bytes
  kept_in r w = contents? (P.node w (at r))

  -- Contents are one of the versions, sealed under the key.
  abbrev pub IsVersion : List Bytes → Bytes → Type 0
  IsVersion l bytes = (plain : Bytes) × Memᴰ plain l × IsSealed mb L plain key [] bytes

  -- The main file has the contents, or the backup has them and the main file has none.
  abbrev pub Has : Bytes → os.World → Type 0
  Has bytes w =
      (kept_in main w ≡ some bytes) ⊎ ((kept_in main w ≡ none) × (kept_in backup w ≡ some bytes))

  abbrev pub Current : List Bytes → os.World → Type 0
  Current [] w = (kept_in main w ≡ none) × (kept_in backup w ≡ none)
  Current (plain ∷ l) w = (bytes : Bytes) × Has bytes w × IsSealed mb L plain key [] bytes

  -- The newest version is current, and the backup has no contents or those of a version.
  abbrev pub Cell : List Bytes → os.World → Type 0
  Cell l w = Current l w × ((bytes : Bytes) → kept_in backup w ≡ some bytes → IsVersion l bytes)

  pub Cell-same :
      (l : List Bytes) (w w' : os.World)
      → ((r : Role) → kept_in r w' ≡ kept_in r w)
      → Cell l w
      → Cell l w'
  Cell-same [] w w' same ((m, b), past) =
      ((same main ∙ m, same backup ∙ b), λ bytes e. past bytes (sym (same backup) ∙ e))
  Cell-same (plain ∷ l) w w' same ((bytes, inl m, sealed), past) =
      ((bytes, inl (same main ∙ m), sealed), λ x e. past x (sym (same backup) ∙ e))
  Cell-same (plain ∷ l) w w' same ((bytes, inr (n, b), sealed), past) =
      ((bytes, inr (same main ∙ n, same backup ∙ b), sealed), λ x e. past x (sym (same backup) ∙ e))

  Current-IsVersion :
      (l : List Bytes) (w : os.World) (bytes : Bytes)
      → Current l w
      → kept_in main w ≡ some bytes
      → IsVersion l bytes
  Current-IsVersion [] w bytes (m, b) e = absurd (cc)
  Current-IsVersion (plain ∷ l) w bytes (x, inl m, sealed) e =
      let same : x ≡ bytes = cc in
      (plain, Memᴰ.head refl, subst (λ y. IsSealed mb L plain key [] y) same sealed)
  Current-IsVersion (plain ∷ l) w bytes (x, inr (n, b), sealed) e = absurd (cc)

  -- All contents of the main file and of the backup are versions.
  pub Old-IsVersion :
      (l : List Bytes) (w : os.World) (bytes : Bytes)
      → Cell l w
      → Old os P (at main) (at backup) w (some bytes)
      → IsVersion l bytes
  Old-IsVersion l w bytes cell (inl e) = absurd (cc)
  Old-IsVersion l w bytes cell (inr (inl e)) = Current-IsVersion l w bytes cell.0 (sym e)
  Old-IsVersion l w bytes cell (inr (inr e)) = cell.1 bytes (sym e)

  pub Cell-stored :
      (l : List Bytes) (plain bytes : Bytes) (w w' : os.World)
      → Cell l w
      → kept_in main w' ≡ some bytes
      → IsSealed mb L plain key [] bytes
      → Old os P (at main) (at backup) w (kept_in backup w')
      → Cell (plain ∷ l) w'
  Cell-stored l plain bytes w w' cell m sealed old = (
    (bytes, inl m, sealed),
    λ x e. let (u, at_u, s) = Old-IsVersion l w x cell (rw e at old) in (u, Memᴰ.tail at_u, s),
  )

  -- A failed `storeData` has moved what was there, and it has kept what was current.
  pub Cell-unstored :
      (l : List Bytes) (w w' : os.World)
      → Cell l w
      → ((bytes : Bytes) → Has bytes w → Has bytes w')
      → Shifted os P (at main) (at backup) w w'
      → Cell l w'
  Cell-unstored [] w w' cell kept moved =
      ((ground arith, ground arith), λ x e. absurd (ground arith))
  Cell-unstored (plain ∷ l) w w' ((bytes, has, sealed), past) kept moved = (
    (bytes, kept bytes has, sealed),
    λ x e. Old-IsVersion (plain ∷ l) w x ((bytes, has, sealed), past) (rw e at moved.1),
  )

  -- What a version is still the newest of, after a deletion that failed.
  rolled_back :
      (l : List Bytes) (plain : Bytes) → Memᴰ plain l → (l' : List Bytes) × RollsBack l (plain ∷ l')
  rolled_back [] plain m = absurd (Memᴰ.not-nil m)
  rolled_back (v ∷ l) plain (Memᴰ.head e) =
      (l, subst (λ u. RollsBack (v ∷ l) (u ∷ l)) (sym e) keeps)
  rolled_back (v ∷ []) plain (Memᴰ.tail m) = absurd (Memᴰ.not-nil m)
  rolled_back (v ∷ u ∷ l) plain (Memᴰ.tail m) =
      let (l', rolls) = rolled_back (u ∷ l) plain m in (l', drops rolls)

  -- A deletion that fails with the main file still there.
  pub Cell-main-kept :
      (l : List Bytes) (w w' : os.World)
      → Cell l w
      → kept_in main w ≢ none
      → kept_in main w' ≡ kept_in main w
      → (kept_in backup w' ≡ none) ⊎ (kept_in backup w' ≡ kept_in backup w)
      → Cell l w'
  Cell-main-kept [] w w' ((no_main, no_backup), past) there m b = absurd (there no_main)
  Cell-main-kept (plain ∷ l) w w' ((bytes, inr (n, x), sealed), past) there m b = absurd (there n)
  Cell-main-kept (plain ∷ l) w w' ((bytes, inl x, sealed), past) there m (inl none_left) =
      ((bytes, inl (m ∙ x), sealed), λ y e. absurd (cc))
  Cell-main-kept (plain ∷ l) w w' ((bytes, inl x, sealed), past) there m (inr same) =
      ((bytes, inl (m ∙ x), sealed), λ y e. past y (sym same ∙ e))

  -- A deletion that has removed the main file and fails on the backup.
  pub Cell-backup-kept :
      (l : List Bytes) (w w' : os.World)
      → Cell l w
      → kept_in backup w ≢ none
      → kept_in main w' ≡ none
      → kept_in backup w' ≡ kept_in backup w
      → (l' : List Bytes) × RollsBack l l' × Cell l' w'
  Cell-backup-kept l w w' cell there m b = elim (Option-cases (kept_in backup w)) [
    | inl e ↦ absurd (there e)
    | inr (bytes, e) ↦
        let (plain, is_in, sealed) = cell.1 bytes e in
        let (l', rolls) = rolled_back l plain is_in in
        (
          plain ∷ l',
          rolls,
          (
            (bytes, inr (m, b ∙ e), sealed),
            λ x e'.
                let same : bytes ≡ x = cc (e, b, e') in
                (plain, Memᴰ.head refl, subst (λ y. IsSealed mb L plain key [] y) same sealed),
          ),
        )
  ]
