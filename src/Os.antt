-- ===== src/Os.antt =====
-- The calls of the operating system and of the C++ streams that the sources make, as the operations
-- of an interface over an unknown state. Their code is not part of the repository.
pub mod Posix
pub mod Memory
pub mod Crash
pub mod Durable
use secure_storage.Base.{ℕ, Bool, Option, List}
use secure_storage.Base.Text.{Str, Bytes}

-- What `stat` tells of a path: `S_ISREG`, `S_ISDIR`, or neither.
pub data Kind : Type 0 where
  regular directory special : Kind

-- `mkdir`: 0, or -1 with `errno == EEXIST`, or -1 with another `errno`.
pub data Mkdir : Type 0 where
  made exists refused : Mkdir

-- What `ifs.read` leaves: the bytes that it stored, `ifs.good()` and `ifs.eof()`.
pub record Chunk : Type 0 where
  pub bytes : Bytes
  pub good : Bool
  pub eof : Bool

pub record Os : Type 1 where
  -- The file system and the open files. Any call may fail in any world.
  pub World : Type 0
  -- `stat`: `none` is a result other than 0.
  pub stat : World → Str → Option Kind
  -- `mkdir(path, 0755)`
  pub mkdir : World → Str → Mkdir × World
  -- `open(path, O_WRONLY | O_CREAT | O_TRUNC, 0644)`: `none` is a negative descriptor.
  pub open_write : World → Str → Option ℕ × World
  -- `write(fd, data, size)`: `none` is a negative count.
  pub write : World → ℕ → Bytes → Option ℕ × World
  -- `fsync`, `close`, `std::remove`, `std::rename`: `true` is the result 0.
  pub fsync : World → ℕ → Bool × World
  pub close : World → ℕ → Bool × World
  pub remove : World → Str → Bool × World
  pub rename : World → Str → Str → Bool × World
  -- `open(path, O_RDONLY | O_DIRECTORY)`
  pub open_directory : World → Str → Option ℕ × World
  -- `opendir`, and the names that `readdir` gives until it gives none.
  pub read_directory : World → Str → Option (List Str)
  -- `std::ifstream(path, binary | ate)`: `is_open() && good()`.
  pub stream_open : World → Str → Bool
  -- `tellg()` of that stream: `none` is a negative position.
  pub tellg : World → Str → Option ℕ
  -- `seekg(0)` and `read(buffer, n)` of that stream.
  pub read : World → Str → ℕ → Chunk
