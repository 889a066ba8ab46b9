-- ===== src/Tests/Restores.antt =====
-- Retrieving from the backup on a disk that loses its power.
use secure_storage.Base.{◌≡◌, ◌≢◌, refl, ◌∙◌, ◌⊎◌, Option, none, some, [], ◌∷◌}
use secure_storage.Base.Text.{Str, Bytes, codes, has_char, str_eq}
use secure_storage.Os.Posix.{IsPosix, Node, file, device}
use secure_storage.Os.Crash.{mortal}
use secure_storage.Os.Memory.{World, memory_os, place, lookup}
use secure_storage.Os.Memory.Disk.{Settled, memory-IsDurable}
use secure_storage.Os.Memory.Laws.{memory-IsPosix}
use secure_storage.Crypto.Toy.{toy, toy-IsLawful}
use secure_storage.Naming.Roles.{Role, main, backup, temp, entry}
use secure_storage.Store.{retrieve_main}
use secure_storage.Store.Power.Retrieving.{Lasts, BackupReads, retrieve_main-Loss}
use secure_storage.Tests.Values.{
  valid_id, top, top-IsBase, key, an_id, an_encryptor, sealed_data, world_of,
}

abbrev at : Role → Str
at r = entry top an_id r

-- The main file is damaged, and the backup is not.
abbrev damaged : World
damaged = world_of ((codes "a.enc", file (0 ∷ [])) ∷ (codes "a.enc.bak", file sealed_data) ∷ [])

abbrev Leads : Bytes → Option Node → Type 0
Leads bytes n = n ≡ some (file bytes)

settled : (r : Str) → Settled damaged r
settled r name e = cc e

lasts :
    (r : Role) (bytes : Bytes)
    → (IsPosix.node memory-IsPosix) damaged (at r) ≡ some (file bytes)
    → Lasts memory_os memory-IsPosix memory-IsDurable damaged (Leads bytes) (at r)
unfolding memory-IsDurable
lasts r bytes e = record {
  now = e;
  main_synced = λ _. settled (at r);
  backup_synced = λ _. settled (at r);
  losses = λ v l. (l (at r)).1 (settled (at r)) ∙ e;
}

main_there : (IsPosix.node memory-IsPosix) damaged (at main) ≡ some (file (0 ∷ []))
unfolding memory-IsPosix place lookup has_char str_eq
main_there = refl

backup_there : (IsPosix.node memory-IsPosix) damaged (at backup) ≡ some (file sealed_data)
unfolding memory-IsPosix place lookup has_char str_eq
backup_there = refl

no_device : (IsPosix.node memory-IsPosix) damaged (at temp) ≢ some device
unfolding memory-IsPosix place lookup has_char str_eq
no_device e = cc

-- The world when the main file has been removed and the copy is being written.
abbrev dead : World
dead =
    (retrieve_main (mortal memory_os) toy (at main) (at backup) key an_encryptor (damaged, 2)).2.0

retrieve_main-Loss_example :
    ((IsPosix.node memory-IsPosix) dead (at backup) ≡ some (file sealed_data))
    × (((IsPosix.node memory-IsPosix) dead (at main) ≡ some (file (0 ∷ [])))
        ⊎ ((c : Bytes) × BackupReads
              (mortal memory_os)
              toy
              toy-IsLawful
              (at main)
              (at backup)
              key
              an_encryptor
              (damaged, 2)
              c
            × (((IsPosix.node memory-IsPosix) dead (at main) ≡ none)
                ⊎ ((IsPosix.node memory-IsPosix) dead (at main) ≡ some (file c)))))
unfolding memory-IsDurable
retrieve_main-Loss_example =
    retrieve_main-Loss memory_os memory-IsPosix memory-IsDurable toy toy-IsLawful top an_id
      top-IsBase valid_id key an_encryptor damaged (Leads (0 ∷ [])) (Leads sealed_data) 2 tt
      no_device (lasts main (0 ∷ []) main_there) (lasts backup sealed_data backup_there) dead
      (λ r. (λ k. k, λ _. refl))
