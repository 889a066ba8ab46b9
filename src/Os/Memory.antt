-- ===== src/Os/Memory.antt =====
-- A file system in memory that behaves as `IsPosix` says: one directory `/`, with files and empty
-- directories in it, and one descriptor. Its disk has all of it but the contents of one file, which
-- has been opened or written and not synced. The tests run the sources' operations on it.
pub mod Nodes
pub mod Calls
pub mod Laws
pub mod Disk
use mathlib.Core.List.{Memᴰ, map}
use mathlib.Core.Option
use secure_storage.Base.{
  ℕ, ◌≤◌, ◌≡◌, ◌≢◌, ◌↔◌, refl, sym, ap, ◌∙◌, ◌⊎◌, inl, inr, Bool, true, false, not, ◌&&◌, ◌||◌,
  Option, none, some, List, [], ◌∷◌, ◌++◌, arith, ◌==◌, if◌then◌else◌, length, take, Bool-cases,
  Option-cases,
}
use secure_storage.Base.Text.{
  Str, Bytes, empty, str_eq, str_eq_iff, has_char, has_char-append, append_cancel,
}
use secure_storage.Os.{Os, Chunk, Mkdir, made, exists, refused}
use secure_storage.Os.Posix.{Node, file, folder, device, kind?, Apart}

-- Where a path leads: to the directory, to an entry of it, or nowhere.
pub data Place : Type 0 where
  root : Place
  inside : Str → Place
  elsewhere : Place

pub record World : Type 0 where
  pub nodes : List (Str × Node)
  pub opened : Option Str
  -- The file whose contents are not on the disk yet.
  pub unsynced : Option Str

unfoldable pub place : Str → Place
unfolding has_char
place [] = elsewhere
place (c ∷ name) =
    if c == b'/'
    then (if empty name then root else if has_char b'/' name then elsewhere else inside name)
    else elsewhere

unfoldable pub lookup : Str → List (Str × Node) → Option Node
lookup name [] = none
lookup name ((m, n) ∷ l) = let rest = lookup name l in if str_eq name m then some n else rest

unfoldable pub del : Str → List (Str × Node) → List (Str × Node)
del name [] = []
del name ((m, n) ∷ l) = let rest = del name l in if str_eq name m then rest else (m, n) ∷ rest

abbrev pub put : Str → Node → List (Str × Node) → List (Str × Node)
put name n l = (name, n) ∷ del name l

abbrev pub seen : List (Str × Node) → Place → Option Node
seen l root = some folder
seen l (inside name) = lookup name l
seen l elsewhere = none

abbrev pub node : World → Str → Option Node
node w p = seen w.nodes (place p)

abbrev pub target : World → ℕ → Option Str
target w fd = if fd == 3 then Option.map (λ name. b'/' ∷ name) w.opened else none

abbrev pub made_at : World → Place → Mkdir × World
made_at w root = (exists, w)
made_at w elsewhere = (refused, w)
made_at w (inside name) = elim (lookup name w.nodes) [
  | some n ↦ (exists, w)
  | none ↦ (made, record w { nodes = put name folder w.nodes })
]

abbrev pub emptied : Str → World → Option ℕ × World
emptied name w = (
  some 3,
  record { nodes = put name (file []) w.nodes; opened = some name; unsynced = some name },
)

abbrev pub opened_at : World → Place → Option ℕ × World
opened_at w root = (none, w)
opened_at w elsewhere = (none, w)
opened_at w (inside name) = elim (lookup name w.nodes) [
  | none ↦ emptied name w
  | some folder ↦ (none, w)
  | some device ↦ (none, w)
  | some (file bytes) ↦ emptied name w
]

abbrev pub appended : Bytes → Option Node → Str → World → Option ℕ × World
appended data' none name w = (none, w)
appended data' (some folder) name w = (none, w)
appended data' (some device) name w = (none, w)
appended data' (some (file bytes)) name w = (
  some (length data'),
  record w { nodes = put name (file (bytes ++ data')) w.nodes; unsynced = some name },
)

abbrev pub write_to : Option Str → World → Bytes → Option ℕ × World
write_to none w data' = (none, w)
write_to (some name) w data' = appended data' (lookup name w.nodes) name w

abbrev pub write_at : World → ℕ → Bytes → Option ℕ × World
write_at w fd data' = if fd == 3 then write_to w.opened w data' else (none, w)

abbrev pub is_file : Option Node → Bool
is_file (some (file bytes)) = true
is_file _ = false

abbrev pub bytes_at : Option Node → Bytes
bytes_at (some (file bytes)) = bytes
bytes_at _ = []

abbrev pub removed_at : World → Place → Bool × World
removed_at w (inside name) =
    if is_file (lookup name w.nodes)
    then (true, record w { nodes = del name w.nodes })
    else (false, w)
removed_at w _ = (false, w)

abbrev pub is_folder : Option Node → Bool
is_folder (some folder) = true
is_folder _ = false

-- The file that is not on the disk after a move.
abbrev pub moved_mark : Str → Str → Option Str → Option Str
moved_mark name name' none = none
moved_mark name name' (some other) = if str_eq name other then some name' else none

abbrev pub moved_at : World → Place → Place → Bool × World
moved_at w (inside name) (inside name') =
    if is_file (lookup name w.nodes) && not (is_folder (lookup name' w.nodes))
    then (
      true,
      record w {
        nodes = put name' (file (bytes_at (lookup name w.nodes))) (del name w.nodes);
        unsynced = moved_mark name name' w.unsynced;
      },
    )
    else (false, w)
moved_at w _ _ = (false, w)

-- The entries, by the names that a path can have.
abbrev pub names : List (Str × Node) → List Str
names [] = []
names ((m, n) ∷ l) = let rest = names l in if has_char 0 m then rest else m ∷ rest

abbrev pub listed_at : World → Place → Option (List Str)
listed_at w root = some (names w.nodes)
listed_at w _ = none

abbrev pub memory_os : Os
memory_os = record {
  World = World;
  stat = λ w p. kind? (node w p);
  mkdir = λ w p. made_at w (place p);
  open_write = λ w p. opened_at w (place p);
  write = write_at;
  fsync = λ w fd. (true, record w { unsynced = none });
  close = λ w fd. (true, record w { opened = none });
  remove = λ w p. removed_at w (place p);
  rename = λ w p q. moved_at w (place p) (place q);
  open_directory = λ w p. (none, w);
  read_directory = λ w p. listed_at w (place p);
  stream_open = λ w p. is_file (node w p);
  tellg = λ w p. some (length (bytes_at (node w p)));
  read = λ w p n. record { bytes = take n (bytes_at (node w p)); good = true; eof = false };
}
