-- ===== src/Os/Posix.antt =====
-- What the sources rely on of those calls: the documented behaviour of POSIX and of the streams, for
-- directory entries that are not links. A call that opens, reads, writes or changes anything may
-- fail at any time, and a failed call of those that change a directory changes nothing. `stat` fails
-- where a path leads nowhere, and `readdir` may end a listing by an error.
use mathlib.Core.List.{Memᴰ}
use secure_storage.Base.{
  ℕ, ◌≤◌, ◌≡◌, ◌≢◌, Bool, true, false, ◌||◌, Option, none, some, List, ◌∷◌, [], ◌++◌, length, take,
}
use secure_storage.Base.Text.{c_str, IsPlain, Str, Bytes, has_char, codes}
use secure_storage.Os.{Os, Kind, regular, directory, special, made}

-- What a path leads to.
pub data Node : Type 0 where
  file : Bytes → Node
  folder : Node
  device : Node

abbrev pub kind : Node → Kind
kind (file bytes) = regular
kind folder = directory
kind device = special

abbrev pub kind? : Option Node → Option Kind
kind? none = none
kind? (some n) = some (kind n)

abbrev pub contents? : Option Node → Option Bytes
contents? (some (file bytes)) = some bytes
contents? _ = none

-- A file name: not empty, with no slash and no NUL byte, and not one of the two links of a directory.
pub record IsName (name : Str) : Type 0 where
  pub not_empty : name ≢ []
  pub no_slash : has_char b'/' name ≡ false
  pub not_dot : name ≢ codes "."
  pub not_dots : name ≢ codes ".."
  pub plain : IsPlain name

-- A directory as the start of a path: text with no NUL byte that ends in a slash.
pub data IsBase : Str → Type 0 where
  slashed : (d : Str) → IsPlain d → IsBase (d ++ b'/' ∷ [])

-- Two different entries of one directory.
pub record Apart (p q : Str) : Type 0 where
  pub base : Str
  pub left : Str
  pub right : Str
  pub base_is : IsBase base
  pub left_is : IsName left
  pub right_is : IsName right
  pub differ : left ≢ right
  pub left_eq : p ≡ base ++ left
  pub right_eq : q ≡ base ++ right

pub record IsPosix (os : Os) : Type 0 where
  -- What a path leads to, up to its first NUL byte.
  pub node : os.World → Str → Option Node
  -- The path that a descriptor is open on.
  pub target : os.World → ℕ → Option Str
  pub node_same : (w : os.World) (p q : Str) → c_str p ≡ c_str q → node w p ≡ node w q
  pub stat_lem : (w : os.World) (p : Str) → os.stat w (c_str p) ≡ kind? (node w p)
  -- What has an entry is a directory, with or without the slash at the end of its path.
  pub parent :
      (w : os.World) (d name : Str)
      → IsPlain d
      → IsName name
      → node w (d ++ b'/' ∷ name) ≢ none
      → (node w (d ++ b'/' ∷ []) ≡ some folder) × (d ≢ [] → node w d ≡ some folder)
  -- `mkdir` changes no file, and nothing that is there.
  pub mkdir_contents :
      (w : os.World) (p q : Str)
      → contents? (node (os.mkdir w (c_str p)).1 q) ≡ contents? (node w q)
  pub mkdir_keeps :
      (w : os.World) (p q : Str) → node w q ≢ none → node (os.mkdir w (c_str p)).1 q ≡ node w q
  pub mkdir_made :
      (w : os.World) (p : Str)
      → (os.mkdir w (c_str p)).0 ≡ made
      → node (os.mkdir w (c_str p)).1 p ≡ some folder
  pub mkdir_device :
      (w : os.World) (p q : Str)
      → node w q ≢ some device
      → node (os.mkdir w (c_str p)).1 q ≢ some device
  -- `open` with `O_CREAT | O_TRUNC` leaves an empty file, or changes nothing.
  pub opened_empty :
      (w : os.World) (p : Str) (fd : ℕ)
      → node w p ≢ some device
      → (os.open_write w (c_str p)).0 ≡ some fd
      → node (os.open_write w (c_str p)).1 p ≡ some (file [])
  pub opened_target :
      (w : os.World) (p : Str) (fd : ℕ)
      → (os.open_write w (c_str p)).0 ≡ some fd
      → target (os.open_write w (c_str p)).1 fd ≡ some (c_str p)
  pub open_others :
      (w : os.World) (p q : Str) → Apart p q → node (os.open_write w (c_str p)).1 q ≡ node w q
  pub open_failed :
      (w : os.World) (p q : Str)
      → (os.open_write w (c_str p)).0 ≡ none
      → node (os.open_write w (c_str p)).1 q ≡ node w q
  -- `write` to an empty file stores as many bytes as it reports. A failed one may store some too.
  pub written :
      (w : os.World) (fd : ℕ) (p : Str) (data' : Bytes) (n : ℕ)
      → target w fd ≡ some (c_str p)
      → node w p ≡ some (file [])
      → (os.write w fd data').0 ≡ some n
      → node (os.write w fd data').1 p ≡ some (file (take n data'))
  pub write_target :
      (w : os.World) (fd : ℕ) (data' : Bytes) → target (os.write w fd data').1 fd ≡ target w fd
  pub write_others :
      (w : os.World) (fd : ℕ) (p q : Str) (data' : Bytes)
      → target w fd ≡ some (c_str p)
      → Apart p q
      → node (os.write w fd data').1 q ≡ node w q
  -- `fsync`, `close` and opening a directory change nothing that a reader sees.
  pub fsync_node : (w : os.World) (fd : ℕ) (q : Str) → node (os.fsync w fd).1 q ≡ node w q
  pub close_node : (w : os.World) (fd : ℕ) (q : Str) → node (os.close w fd).1 q ≡ node w q
  pub open_directory_node :
      (w : os.World) (p q : Str) → node (os.open_directory w (c_str p)).1 q ≡ node w q
  pub removed :
      (w : os.World) (p : Str)
      → (os.remove w (c_str p)).0 ≡ true
      → node (os.remove w (c_str p)).1 p ≡ none
  pub remove_others :
      (w : os.World) (p q : Str) → Apart p q → node (os.remove w (c_str p)).1 q ≡ node w q
  pub remove_failed :
      (w : os.World) (p q : Str)
      → (os.remove w (c_str p)).0 ≡ false
      → node (os.remove w (c_str p)).1 q ≡ node w q
  pub renamed_to :
      (w : os.World) (p q : Str)
      → Apart p q
      → (os.rename w (c_str p) (c_str q)).0 ≡ true
      → node (os.rename w (c_str p) (c_str q)).1 q ≡ node w p
  pub renamed_from :
      (w : os.World) (p q : Str)
      → Apart p q
      → (os.rename w (c_str p) (c_str q)).0 ≡ true
      → node (os.rename w (c_str p) (c_str q)).1 p ≡ none
  pub rename_others :
      (w : os.World) (p q r : Str)
      → Apart p r
      → Apart q r
      → node (os.rename w (c_str p) (c_str q)).1 r ≡ node w r
  pub rename_failed :
      (w : os.World) (p q r : Str)
      → (os.rename w (c_str p) (c_str q)).0 ≡ false
      → node (os.rename w (c_str p) (c_str q)).1 r ≡ node w r
  -- A path that leads to the file itself: a rename that succeeds does nothing.
  pub rename_same :
      (w : os.World) (p q : Str)
      → c_str p ≡ c_str q
      → (os.rename w (c_str p) (c_str q)).0 ≡ true
      → (node w p ≢ none) × (node (os.rename w (c_str p) (c_str q)).1 p ≡ node w p)
  -- A stream tells the size of its file and reads its bytes, or reports that it could not.
  pub open_stream : (w : os.World) (p : Str) → os.stream_open w (c_str p) ≡ true → node w p ≢ none
  pub size_of :
      (w : os.World) (p : Str) (bytes : Bytes) (n : ℕ)
      → node w p ≡ some (file bytes)
      → os.tellg w (c_str p) ≡ some n
      → n ≡ length bytes
  pub bytes_of :
      (w : os.World) (p : Str) (bytes : Bytes) (n : ℕ)
      → node w p ≡ some (file bytes)
      → n ≤ length bytes
      → ((os.read w (c_str p) n).good || (os.read w (c_str p) n).eof) ≡ true
      → (os.read w (c_str p) n).bytes ≡ take n bytes
  -- Whether `readdir` comes to the end of a directory with no error.
  pub reads_all : os.World → Str → Bool
  -- The entries that `readdir` gives are C strings; if it comes to the end, they are all entries.
  pub entries_plain :
      (w : os.World) (base : Str) (names : List Str)
      → os.read_directory w (c_str base) ≡ some names
      → (name : Str) → Memᴰ name names
      → IsPlain name
  pub entries_of :
      (w : os.World) (base : Str) (names : List Str)
      → IsBase base
      → reads_all w base ≡ true
      → os.read_directory w (c_str base) ≡ some names
      → (name : Str) → IsName name
      → node w (base ++ name) ≢ none
      → Memᴰ name names

-- A system where the reading of a file does not fail.
pub record IsFaultless {os : Os} (P : IsPosix os) : Type 0 where
  pub streams :
      (w : os.World) (p : Str) (bytes : Bytes)
      → P.node w p ≡ some (file bytes)
      → os.stream_open w (c_str p) ≡ true
  pub tells :
      (w : os.World) (p : Str) (bytes : Bytes)
      → P.node w p ≡ some (file bytes)
      → os.tellg w (c_str p) ≡ some (length bytes)
  pub reads :
      (w : os.World) (p : Str) (n : ℕ) (bytes : Bytes)
      → P.node w p ≡ some (file bytes)
      → n ≤ length bytes
      → (os.read w (c_str p) n).good ≡ true
