-- ===== src/Inotify.antt =====
-- The calls of the Linux kernel and of `std::thread` that the file watcher makes, as the operations of an
-- interface over the world of the other calls, and the constants of `sys/inotify.h`.
pub mod Toy
use secure_storage.Base.{ℕ, zero, suc, ◌+◌, ◌≡◌, Bool, Option, List, [], ◌∷◌, ◌++◌}
use secure_storage.Base.Text.{Str, Bytes}

-- `struct inotify_event` at a place of a buffer. The descriptor -1 is `none`; `name` is read up to its
-- first zero.
pub record Event : Type 0 where
  pub wd : Option ℕ
  pub mask : ℕ
  pub len : ℕ
  pub name : Str

pub record Inotify (World : Type 0) : Type 0 where
  -- `inotify_init`: `none` is a negative descriptor.
  pub init : World → Option ℕ × World
  -- `fcntl(fd, F_GETFL, 0)`: `none` is -1.
  pub get_flags : World → ℕ → Option ℕ
  -- `fcntl(fd, F_SETFL, flags | O_NONBLOCK)`: `true` is a result other than -1.
  pub set_nonblocking : World → ℕ → ℕ → Bool × World
  -- `pipe`: the two ends, or `none` for a negative result.
  pub pipe : World → Option (ℕ × ℕ) × World
  -- The constructor of `std::thread`: `false` is `std::system_error`.
  pub spawn : World → Bool × World
  -- `write(fd, "S", 1)`, whose result is only logged.
  pub signal : World → ℕ → World
  -- `inotify_add_watch(fd, path, mask)`: `none` is a negative descriptor.
  pub add_watch : World → ℕ → Str → ℕ → Option ℕ × World
  -- `inotify_rm_watch(fd, wd)`, whose result is only logged.
  pub rm_watch : World → ℕ → ℕ → World
  pub close : World → ℕ → World
  -- The event at an index of a buffer, and `sizeof(struct inotify_event)`.
  pub event_at : Bytes → ℕ → Event
  pub header_size : ℕ
  -- Whether the mask has a bit of the flag, `mask & flag`.
  pub has : ℕ → ℕ → Bool
  pub in_access : ℕ
  pub in_modify : ℕ
  pub in_attrib : ℕ
  pub in_close_write : ℕ
  pub in_close_nowrite : ℕ
  pub in_open : ℕ
  pub in_moved_from : ℕ
  pub in_moved_to : ℕ
  pub in_create : ℕ
  pub in_delete : ℕ
  pub in_delete_self : ℕ
  pub in_move_self : ℕ
  pub in_unmount : ℕ
  pub in_q_overflow : ℕ
  pub in_ignored : ℕ
  pub in_isdir : ℕ
  -- `IN_MODIFY | IN_CLOSE_WRITE | …`, the mask that a watch is added with.
  pub watched_mask : ℕ
