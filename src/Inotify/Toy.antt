-- ===== src/Inotify/Toy.antt =====
-- A kernel for the tests, over the file system in memory: its calls succeed, every path leads to the one
-- directory that there is, so all have the same watch, and an event is a descriptor, a mask and a length.
use secure_storage.Base.{◌/◌, ◌%◌, true, some, [], ◌∷◌, ◌==◌, drop, take}
use secure_storage.Base.Text.{Bytes}
use secure_storage.Os.Memory.{World}
use secure_storage.Inotify.{Inotify, Event}

abbrev pub decode : Bytes → Event
decode (wd ∷ mask ∷ len ∷ rest) = record {
  wd = some wd;
  mask = mask;
  len = len;
  name = take len rest;
}
decode _ = record { wd = some 0; mask = 0; len = 0; name = [] }

abbrev pub toy_inotify : Inotify World
toy_inotify = record {
  init = λ w. (some 10, w);
  get_flags = λ w fd. some 0;
  set_nonblocking = λ w fd flags. (true, w);
  pipe = λ w. (some (11, 12), w);
  spawn = λ w. (true, w);
  signal = λ w fd. w;
  add_watch = λ w fd path mask. (some 1, w);
  rm_watch = λ w fd wd. w;
  close = λ w fd. w;
  event_at = λ buffer i. decode (drop i buffer);
  header_size = 3;
  has = λ mask flag. (mask / flag) % 2 == 1;
  in_access = 1;
  in_modify = 2;
  in_attrib = 4;
  in_close_write = 8;
  in_close_nowrite = 16;
  in_open = 32;
  in_moved_from = 64;
  in_moved_to = 128;
  in_create = 256;
  in_delete = 512;
  in_delete_self = 1024;
  in_move_self = 2048;
  in_unmount = 8192;
  in_q_overflow = 16384;
  in_ignored = 32768;
  in_isdir = 1073741824;
  watched_mask = 4042;
}
