-- ===== src/Os/Crash/Laws.antt =====
-- A system on which the process dies has the laws of the system.
use secure_storage.Base.Text.{c_str}
use secure_storage.Base.{ℕ, zero, suc, ◌≡◌, ◌≢◌, refl, true, false, none, some, [], take}
use secure_storage.Os.{Os, refused, made}
use secure_storage.Os.Posix.{IsPosix, file, folder, device, contents?}
use secure_storage.Os.Crash.{limit, mortal}

-- What holds of a failed call and of one that is done holds of a call.
pub limit_cases {ℓ κ} :
    {A : Type ℓ} {W : Type 0} (failed : A) (call : W → A × W) (w : W × ℕ) (Q : A × (W × ℕ) → Type κ)
    → Q (failed, w)
    → ((n : ℕ) → Q ((call w.0).0, ((call w.0).1, n)))
    → Q (limit failed call w)
limit_cases failed call (w, zero) Q f c = f
limit_cases failed call (w, suc n) Q f c = c n

module _ (os : Os) (P : IsPosix os) where
  unfoldable pub mortal-IsPosix : IsPosix (mortal os)
  mortal-IsPosix = record {
    node = λ w q. P.node w.0 q;
    target = λ w fd. P.target w.0 fd;
    node_same = λ w p q. P.node_same w.0 p q;
    stat_lem = λ w p. P.stat_lem w.0 p;
    parent = λ w d name. P.parent w.0 d name;
    mkdir_contents = λ w p q.
        limit_cases refused (λ v. os.mkdir v (c_str p)) w
          (λ r. contents? (P.node r.1.0 q) ≡ contents? (P.node w.0 q)) refl
          (λ n. P.mkdir_contents w.0 p q);
    mkdir_keeps = λ w p q there.
        limit_cases refused (λ v. os.mkdir v (c_str p)) w (λ r. P.node r.1.0 q ≡ P.node w.0 q) refl
          (λ n. P.mkdir_keeps w.0 p q there);
    mkdir_made = λ w p.
        limit_cases refused (λ v. os.mkdir v (c_str p)) w
          (λ r. r.0 ≡ made → P.node r.1.0 p ≡ some folder) (λ e. absurd (cc))
          (λ n. P.mkdir_made w.0 p);
    mkdir_device = λ w p q d.
        limit_cases refused (λ v. os.mkdir v (c_str p)) w (λ r. P.node r.1.0 q ≢ some device) d
          (λ n. P.mkdir_device w.0 p q d);
    opened_empty = λ w p fd d.
        limit_cases none (λ v. os.open_write v (c_str p)) w
          (λ r. r.0 ≡ some fd → P.node r.1.0 p ≡ some (file [])) (λ e. absurd (cc))
          (λ n. P.opened_empty w.0 p fd d);
    opened_target = λ w p fd.
        limit_cases none (λ v. os.open_write v (c_str p)) w
          (λ r. r.0 ≡ some fd → P.target r.1.0 fd ≡ some (c_str p)) (λ e. absurd (cc))
          (λ n. P.opened_target w.0 p fd);
    open_others = λ w p q a.
        limit_cases none (λ v. os.open_write v (c_str p)) w (λ r. P.node r.1.0 q ≡ P.node w.0 q)
          refl (λ n. P.open_others w.0 p q a);
    open_failed = λ w p q.
        limit_cases none (λ v. os.open_write v (c_str p)) w
          (λ r. r.0 ≡ none → P.node r.1.0 q ≡ P.node w.0 q) (λ e. refl)
          (λ n. P.open_failed w.0 p q);
    written = λ w fd p data' k t f.
        limit_cases none (λ v. os.write v fd data') w
          (λ r. r.0 ≡ some k → P.node r.1.0 p ≡ some (file (take k data'))) (λ e. absurd (cc))
          (λ n. P.written w.0 fd p data' k t f);
    write_target = λ w fd data'.
        limit_cases none (λ v. os.write v fd data') w (λ r. P.target r.1.0 fd ≡ P.target w.0 fd)
          refl (λ n. P.write_target w.0 fd data');
    write_others = λ w fd p q data' t a.
        limit_cases none (λ v. os.write v fd data') w (λ r. P.node r.1.0 q ≡ P.node w.0 q) refl
          (λ n. P.write_others w.0 fd p q data' t a);
    fsync_node = λ w fd q.
        limit_cases false (λ v. os.fsync v fd) w (λ r. P.node r.1.0 q ≡ P.node w.0 q) refl
          (λ n. P.fsync_node w.0 fd q);
    close_node = λ w fd q.
        limit_cases false (λ v. os.close v fd) w (λ r. P.node r.1.0 q ≡ P.node w.0 q) refl
          (λ n. P.close_node w.0 fd q);
    open_directory_node = λ w p q.
        limit_cases none (λ v. os.open_directory v (c_str p)) w (λ r. P.node r.1.0 q ≡ P.node w.0 q)
          refl (λ n. P.open_directory_node w.0 p q);
    removed = λ w p.
        limit_cases false (λ v. os.remove v (c_str p)) w (λ r. r.0 ≡ true → P.node r.1.0 p ≡ none)
          (λ e. absurd (cc)) (λ n. P.removed w.0 p);
    remove_others = λ w p q a.
        limit_cases false (λ v. os.remove v (c_str p)) w (λ r. P.node r.1.0 q ≡ P.node w.0 q) refl
          (λ n. P.remove_others w.0 p q a);
    remove_failed = λ w p q.
        limit_cases false (λ v. os.remove v (c_str p)) w
          (λ r. r.0 ≡ false → P.node r.1.0 q ≡ P.node w.0 q) (λ e. refl)
          (λ n. P.remove_failed w.0 p q);
    renamed_to = λ w p q a.
        limit_cases false (λ v. os.rename v (c_str p) (c_str q)) w
          (λ r. r.0 ≡ true → P.node r.1.0 q ≡ P.node w.0 p) (λ e. absurd (cc))
          (λ n. P.renamed_to w.0 p q a);
    renamed_from = λ w p q a.
        limit_cases false (λ v. os.rename v (c_str p) (c_str q)) w
          (λ r. r.0 ≡ true → P.node r.1.0 p ≡ none) (λ e. absurd (cc))
          (λ n. P.renamed_from w.0 p q a);
    rename_others = λ w p q z a b.
        limit_cases false (λ v. os.rename v (c_str p) (c_str q)) w
          (λ r. P.node r.1.0 z ≡ P.node w.0 z) refl (λ n. P.rename_others w.0 p q z a b);
    rename_failed = λ w p q z.
        limit_cases false (λ v. os.rename v (c_str p) (c_str q)) w
          (λ r. r.0 ≡ false → P.node r.1.0 z ≡ P.node w.0 z) (λ e. refl)
          (λ n. P.rename_failed w.0 p q z);
    rename_same = λ w p q e.
        limit_cases false (λ v. os.rename v (c_str p) (c_str q)) w
          (λ r. r.0 ≡ true → (P.node w.0 p ≢ none) × (P.node r.1.0 p ≡ P.node w.0 p))
          (λ h. absurd (cc)) (λ n. P.rename_same w.0 p q e);
    open_stream = λ w p. P.open_stream w.0 p;
    size_of = λ w p. P.size_of w.0 p;
    bytes_of = λ w p. P.bytes_of w.0 p;
    reads_all = λ w base. P.reads_all w.0 base;
    entries_plain = λ w base names. P.entries_plain w.0 base names;
    entries_of = λ w base names. P.entries_of w.0 base names;
  }
