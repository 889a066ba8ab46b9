-- ===== src/Os/Durable.antt =====
-- What the sources rely on of a disk that loses its power: the documented behaviour of a file system with a
-- journal. Changes of directories reach the disk in the order in which they were made; the contents of a
-- file are sure to be there only after `fsync`.
pub mod Mortal
use secure_storage.Base.{ℕ, ◌≡◌, ◌⊎◌, true, false, none, some}
use secure_storage.Base.Text.{c_str, Str, Bytes}
use secure_storage.Os.{Os}
use secure_storage.Os.Posix.{IsPosix, Apart}

abbrev pub Anywhere : Str → Type 0
Anywhere r = Unit

abbrev pub Elsewhere : Str → Str → Type 0
Elsewhere p r = Apart p r

module _ {os : Os} (P : IsPosix os) (Loss : os.World → os.World → Type 0)
    (Synced : os.World → Str → Type 0) where
  -- A disk with the directories as they are, and with each file as it is that was synced.
  abbrev pub Latest : os.World → os.World → Type 0
  Latest w w' =
      (r : Str) → (P.node w r ≡ none → P.node w' r ≡ none) × (Synced w r → P.node w' r ≡ P.node w r)

  -- After a call from `w` to `w1`, the disk may be as it might have been before, at the paths of the
  -- first predicate, or it has everything. Files at the paths of the second that were synced still are.
  pub record Keeps (w w1 : os.World) (as_before still_synced : Str → Type 0) : Type 0 where
    pub loss :
        (w' : os.World)
        → Loss w1 w'
        → ((u : os.World) × Loss w u × ((r : Str) → as_before r → P.node w' r ≡ P.node u r))
          ⊎ Latest w1 w'
    pub synced : (r : Str) → still_synced r → Synced w r → Synced w1 r

pub record IsDurable {os : Os} (P : IsPosix os) : Type 1 where
  -- What a restart after the loss of power may find.
  pub Loss : os.World → os.World → Type 0
  -- The contents of the file at a path are on the disk.
  pub Synced : os.World → Str → Type 0
  -- The file at a path, if there is one, has not had another path that the disk may still have for it.
  pub Sole : os.World → Str → Type 0
  pub open_keeps :
      (w : os.World) (p : Str)
      → Sole w p
      → Keeps P Loss Synced w (os.open_write w (c_str p)).1 (Elsewhere p) (Elsewhere p)
  pub open_sole : (w : os.World) (p : Str) → Sole w p → Sole (os.open_write w (c_str p)).1 p
  pub write_keeps :
      (w : os.World) (fd : ℕ) (p : Str) (data' : Bytes)
      → P.target w fd ≡ some (c_str p)
      → Sole w p
      → Keeps P Loss Synced w (os.write w fd data').1 (Elsewhere p) (Elsewhere p)
  pub fsync_keeps :
      (w : os.World) (fd : ℕ) → Keeps P Loss Synced w (os.fsync w fd).1 Anywhere Anywhere
  pub fsync_synced :
      (w : os.World) (fd : ℕ) (p : Str)
      → P.target w fd ≡ some (c_str p)
      → (os.fsync w fd).0 ≡ true
      → Synced (os.fsync w fd).1 p
  pub close_keeps :
      (w : os.World) (fd : ℕ) → Keeps P Loss Synced w (os.close w fd).1 Anywhere Anywhere
  pub open_directory_keeps :
      (w : os.World) (p : Str)
      → Keeps P Loss Synced w (os.open_directory w (c_str p)).1 Anywhere Anywhere
  pub remove_keeps :
      (w : os.World) (p : Str)
      → Keeps P Loss Synced w (os.remove w (c_str p)).1 Anywhere (Elsewhere p)
  pub remove_sole :
      (w : os.World) (p r : Str) → Apart p r → Sole w r → Sole (os.remove w (c_str p)).1 r
  pub remove_failed :
      (w : os.World) (p r : Str)
      → (os.remove w (c_str p)).0 ≡ false
      → Synced w r
      → Synced (os.remove w (c_str p)).1 r
  pub rename_keeps :
      (w : os.World) (p q : Str)
      → Keeps P Loss Synced w
          (os.rename w (c_str p) (c_str q)).1
          Anywhere
          (λ r. Apart p r × Apart q r)
  pub rename_failed :
      (w : os.World) (p q r : Str)
      → (os.rename w (c_str p) (c_str q)).0 ≡ false
      → Synced w r
      → Synced (os.rename w (c_str p) (c_str q)).1 r
  pub rename_synced :
      (w : os.World) (p q : Str)
      → Apart p q
      → (os.rename w (c_str p) (c_str q)).0 ≡ true
      → Synced w p
      → Synced (os.rename w (c_str p) (c_str q)).1 q
