-- ===== src/Tests/Values.antt =====
-- The objects that the tests share.
use secure_storage.Naming.Roles.{Named}
use secure_storage.Base.{
  ◌≡◌, ◌≢◌, sym, refl, true, false, none, some, List, [], ◌∷◌, ◌++◌, replicate,
}
use secure_storage.Base.Text.{Str, Bytes, codes, back_is, has_char, str_eq, str_eq_iff}
use secure_storage.Os.Posix.{IsBase, slashed, Node}
use secure_storage.Os.Memory.{World, memory_os}
use secure_storage.Crypto.KeyProvider.{
  key_provider, get_encryption_key, hkdf_salt_default, hkdf_info_default,
}
use secure_storage.Crypto.Encryptor.{Encryptor, encryptor}
use secure_storage.Crypto.Encryptor.Laws.{IsSealed}
use secure_storage.Crypto.Toy.{toy, toy-IsLawful, zeros, stretch}
use secure_storage.Base.Text.{is_separator}
use secure_storage.Store.{SecureStore, secure_store, initialize}
use secure_storage.Store.Lifecycle.{IsReady}
use secure_storage.FileUtil.{create_directories}
use secure_storage.Os.Memory.{place}
use secure_storage.Error.{is_success}
use secure_storage.Naming.{validate_data_id, has_dots}

abbrev pub top : Str
top = codes "/"

abbrev pub top-IsBase : IsBase top
unfolding has_char
top-IsBase = slashed [] refl

abbrev pub an_id : Str
an_id = codes "a"

abbrev pub other_id : Str
other_id = codes "b"

pub valid_id : Named an_id
unfolding validate_data_id has_char has_dots
valid_id = (refl, refl)

pub valid_other : Named other_id
unfolding validate_data_id has_char has_dots
valid_other = (refl, refl)

not_equal : str_eq other_id an_id ≡ false
unfolding str_eq
not_equal = refl

pub other_id-differs : other_id ≢ an_id
other_id-differs e = cc (not_equal, (str_eq_iff other_id an_id).1 e)

pub an_id-differs : an_id ≢ other_id
an_id-differs e = other_id-differs (sym e)

abbrev pub some_data : Bytes
some_data = 1 ∷ 2 ∷ []

abbrev pub key : Bytes
key = codes "S1" ++ replicate 30 0

abbrev pub an_encryptor : Encryptor toy
an_encryptor = record { impl = some (record { initialized = true; rng = 7 }) }

-- The object that the constructor makes for the serial number "S1".
abbrev pub a_store : SecureStore toy
a_store = record {
  root_storage_path = top;
  key_provider = some (record {
    device_serial_number = codes "S1";
    salt = hkdf_salt_default;
    info = hkdf_info_default;
  });
  encryptor = some an_encryptor;
  master_key = key;
  initialized = true;
}

abbrev pub world_of : List (Str × Node) → World
world_of nodes = record { nodes = nodes; opened = none; unsynced = none }

made : secure_store memory_os toy top (codes "S1") 7 (world_of []) ≡ (a_store, world_of [])
unfolding secure_store initialize create_directories place is_success get_encryption_key
    key_provider stretch encryptor back_is
made = refl

root_ends : back_is is_separator top ≡ true
unfolding back_is
root_ends = refl

pub a_store-IsReady : IsReady toy a_store
a_store-IsReady = record {
  initialized = refl;
  e = an_encryptor;
  encryptor = refl;
  key_length = refl;
  root_ends = root_ends;
}

abbrev pub sealed_data : Bytes
sealed_data = replicate 12 7 ++ (some_data ++ zeros)

pub sealed_data-IsSealed : IsSealed toy toy-IsLawful some_data key [] sealed_data
sealed_data-IsSealed = record {
  iv = replicate 12 7;
  cipher = some_data;
  tag = zeros;
  key_length = refl;
  key_set = refl;
  iv_length = refl;
  sealed = refl;
  output_eq = refl;
}
