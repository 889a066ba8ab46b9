-- ===== src/Os/Durable/Mortal.antt =====
-- A disk does not depend on how long a process lives.
use secure_storage.Base.{ℕ, ◌≡◌, refl, inl, inr, true, false, none}
use secure_storage.Base.Text.{c_str, Str}
use secure_storage.Os.{Os}
use secure_storage.Os.Posix.{IsPosix, Apart}
use secure_storage.Os.Crash.{limit}
use secure_storage.Os.Crash.Laws.{limit_cases, mortal-IsPosix}
use secure_storage.Os.Durable.{Anywhere, Elsewhere, Keeps, IsDurable}

module _ (os : Os) (P : IsPosix os) (D : IsDurable P) where
  abbrev pub Loss : os.World × ℕ → os.World × ℕ → Type 0
  Loss w w' = D.Loss w.0 w'.0

  abbrev pub Synced : os.World × ℕ → Str → Type 0
  Synced w r = D.Synced w.0 r

  abbrev pub Kept : os.World × ℕ → os.World × ℕ → (Str → Type 0) → (Str → Type 0) → Type 0
  Kept = Keeps (mortal-IsPosix os P) Loss Synced

  -- A call that is not made.
  pub same : (w : os.World × ℕ) (A B : Str → Type 0) → Kept w w A B
  same w A B = record { loss = λ w' l. inl (w', l, λ r a. refl); synced = λ r a s. s }

  -- A call that is made.
  pub done :
      (w : os.World × ℕ) (w1 : os.World) (n : ℕ) (A B : Str → Type 0)
      → Keeps P D.Loss D.Synced w.0 w1 A B
      → Kept w (w1, n) A B
  unfolding mortal-IsPosix
  done w w1 n A B k = record {
    loss = λ w' l. elim (k.loss w'.0 l) [
      | inl (u, lu, agrees) ↦ inl ((u, 0), lu, agrees)
      | inr latest ↦ inr latest
    ];
    synced = k.synced;
  }

  pub call :
      {R : Type 0} (failed : R) (make : os.World → R × os.World) (w : os.World × ℕ)
      (A B : Str → Type 0)
      → Keeps P D.Loss D.Synced w.0 (make w.0).1 A B
      → Kept w (limit failed make w).1 A B
  call failed make w A B k =
      limit_cases failed make w (λ r. Kept w r.1 A B) (same w A B) (λ n. done w _ n A B k)

  unfoldable pub mortal-IsDurable : IsDurable (mortal-IsPosix os P)
  unfolding mortal-IsPosix
  mortal-IsDurable = record {
    Loss = Loss;
    Synced = Synced;
    Sole = λ w p. D.Sole w.0 p;
    open_keeps = λ w p o.
        call none (λ v. os.open_write v (c_str p)) w (Elsewhere p) (Elsewhere p)
          (D.open_keeps w.0 p o);
    open_sole = λ w p o.
        limit_cases none (λ v. os.open_write v (c_str p)) w (λ r. D.Sole r.1.0 p) o
          (λ n. D.open_sole w.0 p o);
    write_keeps = λ w fd p data' t o.
        call none (λ v. os.write v fd data') w (Elsewhere p) (Elsewhere p)
          (D.write_keeps w.0 fd p data' t o);
    fsync_keeps =
        λ w fd. call false (λ v. os.fsync v fd) w Anywhere Anywhere (D.fsync_keeps w.0 fd);
    fsync_synced = λ w fd p t.
        limit_cases false (λ v. os.fsync v fd) w (λ r. r.0 ≡ true → D.Synced r.1.0 p)
          (λ e. absurd (cc)) (λ n. D.fsync_synced w.0 fd p t);
    close_keeps =
        λ w fd. call false (λ v. os.close v fd) w Anywhere Anywhere (D.close_keeps w.0 fd);
    open_directory_keeps = λ w p.
        call none (λ v. os.open_directory v (c_str p)) w Anywhere Anywhere
          (D.open_directory_keeps w.0 p);
    remove_keeps = λ w p.
        call false (λ v. os.remove v (c_str p)) w Anywhere (Elsewhere p) (D.remove_keeps w.0 p);
    remove_sole = λ w p r a o.
        limit_cases false (λ v. os.remove v (c_str p)) w (λ x. D.Sole x.1.0 r) o
          (λ n. D.remove_sole w.0 p r a o);
    remove_failed = λ w p r.
        limit_cases false (λ v. os.remove v (c_str p)) w
          (λ x. x.0 ≡ false → D.Synced w.0 r → D.Synced x.1.0 r) (λ e s. s)
          (λ n. D.remove_failed w.0 p r);
    rename_keeps = λ w p q.
        call false (λ v. os.rename v (c_str p) (c_str q)) w Anywhere (λ r. Apart p r × Apart q r)
          (D.rename_keeps w.0 p q);
    rename_failed = λ w p q r.
        limit_cases false (λ v. os.rename v (c_str p) (c_str q)) w
          (λ x. x.0 ≡ false → D.Synced w.0 r → D.Synced x.1.0 r) (λ e s. s)
          (λ n. D.rename_failed w.0 p q r);
    rename_synced = λ w p q a.
        limit_cases false (λ v. os.rename v (c_str p) (c_str q)) w
          (λ x. x.0 ≡ true → D.Synced w.0 p → D.Synced x.1.0 q) (λ e. absurd (cc))
          (λ n. D.rename_synced w.0 p q a);
  }
