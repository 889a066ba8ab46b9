-- ===== src/Tests/Tools.antt =====
-- The theorem on the file utility at concrete files.
use secure_storage.Base.{◌≡◌, ◌≢◌, refl, true, none, some, [], ◌∷◌, ◌++◌}
use secure_storage.Base.Text.{codes, has_char, str_eq, find_last}
use secure_storage.Error.{success, is_success}
use secure_storage.Os.Posix.{IsPosix, IsName, file, device}
use secure_storage.Os.Memory.{World, memory_os, place, lookup, del}
use secure_storage.Os.Memory.Laws.{memory-IsPosix}
use secure_storage.FileUtil.{
  get_directory, path_exists, read_stream, read_file, ensure_directory, finish_temporary,
  fill_temporary, write_temporary, sync_directory, commit_temporary, write_and_rename,
  atomic_write_file, temp_file_util_suffix,
}
use secure_storage.Crypto.KeyProvider.{key_provider, get_encryption_key}
use secure_storage.Crypto.Encryptor.{
  encryptor, encrypt, ready?, generate_iv, seal_with, default_seed,
}
use secure_storage.Crypto.Toy.{toy, toy-IsLawful, stretch}
use secure_storage.Tool.{OutStream, encrypt_file, run, main}
use secure_storage.Tool.RoundTrip.{main-main}
use secure_storage.Tests.Values.{top, top-IsBase, some_data, sealed_data, world_of}

-- A stream that writes nothing: the test prints to the console.
abbrev no_stream : OutStream World
no_stream = record { create = λ w p. (true, w); put = λ w p data'. w; finish = λ w p. (true, w) }

abbrev before : World
before = world_of ((codes "in", file some_data) ∷ [])

abbrev after : World
after = world_of ((codes "out", file sealed_data) ∷ (codes "in", file some_data) ∷ [])

out-IsName : IsName (codes "out")
unfolding has_char
out-IsName = record {
  plain = refl;
  not_empty = λ e. cc;
  no_slash = refl;
  not_dot = λ e. cc;
  not_dots = λ e. cc;
}

input_there : (IsPosix.node memory-IsPosix) before (codes "/in") ≡ some (file some_data)
unfolding memory-IsPosix place lookup has_char str_eq
input_there = refl

no_device :
    (IsPosix.node memory-IsPosix) before ((top ++ codes "out") ++ temp_file_util_suffix)
    ≢ some device
unfolding memory-IsPosix place lookup has_char str_eq
no_device e = cc

encrypts :
    main memory_os toy no_stream
      (codes "tool" ∷ codes "encrypt" ∷ codes "S1" ∷ codes "/in" ∷ (top ++ codes "out") ∷ [])
      7
      before
    ≡ (0, none, after)
unfolding main run encrypt_file read_file read_stream atomic_write_file ensure_directory path_exists
    write_and_rename write_temporary fill_temporary finish_temporary commit_temporary sync_directory
    get_directory encrypt generate_iv ready? seal_with encryptor key_provider get_encryption_key
    stretch has_char is_success place lookup del str_eq find_last
encrypts = refl

works : ready? toy (encryptor toy default_seed 7) ≢ none
unfolding ready? encryptor
works e = cc

readable : (read_file memory_os (top ++ codes "out") after).0 ≡ success
unfolding read_file read_stream place lookup str_eq has_char
readable = refl

main-main_example :
    main memory_os toy no_stream
      (codes "tool" ∷ codes "decrypt" ∷ codes "S1" ∷ (top ++ codes "out") ∷ codes "-" ∷ [])
      7
      after
    ≡ (0, some some_data, after)
main-main_example =
    main-main memory_os memory-IsPosix toy toy-IsLawful no_stream top (codes "out") top-IsBase
      out-IsName (codes "tool") (codes "S1") (codes "/in") some_data [] 7 7 before after none
      input_there no_device encrypts works readable
