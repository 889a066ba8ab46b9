-- ===== src/Os/Crash.antt =====
-- A process that dies: a system on which only so many of the calls that change something are done. What a
-- dead process would have called fails and changes nothing, so the files are those at its death.
pub mod Laws
use secure_storage.Base.{ℕ, zero, suc, ◌≡◌, Bool, false, Option, none}
use secure_storage.Os.{Os, refused}

-- A call with the calls that are left.
abbrev pub limit {ℓ} : {A : Type ℓ} {W : Type 0} → A → (W → A × W) → W × ℕ → A × (W × ℕ)
limit failed call (w, zero) = (failed, (w, zero))
limit failed call (w, suc n) = ((call w).0, ((call w).1, n))

abbrev pub mortal : Os → Os
mortal os = record {
  World = os.World × ℕ;
  stat = λ w p. os.stat w.0 p;
  mkdir = λ w p. limit refused (λ v. os.mkdir v p) w;
  open_write = λ w p. limit none (λ v. os.open_write v p) w;
  write = λ w fd data'. limit none (λ v. os.write v fd data') w;
  fsync = λ w fd. limit false (λ v. os.fsync v fd) w;
  close = λ w fd. limit false (λ v. os.close v fd) w;
  remove = λ w p. limit false (λ v. os.remove v p) w;
  rename = λ w p q. limit false (λ v. os.rename v p q) w;
  open_directory = λ w p. limit none (λ v. os.open_directory v p) w;
  read_directory = λ w p. os.read_directory w.0 p;
  stream_open = λ w p. os.stream_open w.0 p;
  tellg = λ w p. os.tellg w.0 p;
  read = λ w p n. os.read w.0 p n;
}
