-- ===== src/Store/Shared.antt =====
-- `storeData` where the main file, the backup and the temporary file are one file.
use secure_storage.Base.{
  ◌≡◌, ◌≢◌, ◌∙◌, sym, ap, [], ◌∷◌, append_assoc, ◌⊎◌, inl, inr, true, false, none, some, ◌++◌,
  Bool-cases, arith,
}
use secure_storage.Base.Text.{c_str, Str, Bytes, empty, has_char, has_char-append}
use secure_storage.Error.{success, is_success, is_success_iff, is_success-success}
use secure_storage.Os.{Os}
use secure_storage.Os.Posix.{IsPosix, file, device}
use secure_storage.FileUtil.{temp_file_util_suffix, delete_file, atomic_write_file}
use secure_storage.FileUtil.Atomic.{atomic_write_file-same}
use secure_storage.FileUtil.Reading.{delete_file_lem}
use secure_storage.Naming.Roles.{Role, suffix, entry}
use secure_storage.Store.{back_up, replace_main, store_encrypted}

pub c_str-append : (p s : Str) → has_char 0 p ≡ true → c_str (p ++ s) ≡ c_str p
unfolding has_char
c_str-append [] s h = absurd (cc)
c_str-append (c ∷ p) s h = ground (arith, c_str-append p s)

-- The files of an id with a NUL byte are one file.
pub entry-shared :
    (root data_id : Str) (r r' : Role)
    → has_char 0 data_id ≡ true
    → c_str (entry root data_id r) ≡ c_str (entry root data_id r')
entry-shared root data_id r r' h = start r ∙ sym (start r')
  where
    start : (r : Role) → c_str (entry root data_id r) ≡ c_str (root ++ data_id)
    start r =
        let nul : has_char 0 (root ++ data_id) ≡ true = rw (has_char-append, h) (ground arith) in
        ap c_str (sym (append_assoc root data_id (suffix r)))
        ∙ c_str-append (root ++ data_id) (suffix r) nul

module _ (os : Os) (P : IsPosix os) (m b t : Str) (m_b : c_str m ≡ c_str b)
    (t_m : c_str t ≡ c_str m) where
  -- Nothing is at the path, or what was.
  abbrev Left : os.World → os.World → Type 0
  Left w v = (P.node v m ≡ none) ⊎ (P.node v m ≡ P.node w m)

  deleted-Left : (w : os.World) → Left w (delete_file os b w).1
  deleted-Left w = elim (delete_file_lem os P b w) [
    | inl (_, _, gone) ↦ inl (P.node_same _ m b m_b ∙ gone)
    | inr (inl (_, _, same)) ↦ inr (same m)
    | inr (inr (_, _, same)) ↦ inr (ap (λ v. P.node v m) same)
  ]

  moved-node : (w : os.World) → P.node (os.rename w (c_str m) (c_str b)).1 m ≡ P.node w m
  moved-node w = elim (Bool-cases (os.rename w (c_str m) (c_str b)).0) [
    | inl e ↦ (P.rename_same w m b m_b e).1
    | inr e ↦ P.rename_failed w m b m e
  ]

  back_up-Left : (w : os.World) → Left w (back_up os m b w)
  unfolding back_up
  back_up-Left w = ground (arith, deleted-Left w, moved-node w, moved-node (delete_file os b w).1)

  replace_main-same :
      (w : os.World)
      → (replace_main os m b t w).0 ≡ success
      → (P.node w m ≢ none) × (P.node (replace_main os m b t w).1 m ≡ P.node w m)
  unfolding replace_main
  replace_main-same w h = elim (Bool-cases (os.rename w (c_str t) (c_str m)).0) [
    | inr e ↦ absurd (ground (arith, e, h))
    | inl e ↦
        let (there, same) = P.rename_same w t m t_m e in
        rw (e, replace_main)
          (
            λ n. there (P.node_same w t m t_m ∙ n),
            P.node_same _ m t (sym t_m) ∙ same ∙ P.node_same w t m t_m,
          )
  ]

  -- A success leaves the data in the file.
  pub store_encrypted-same :
      (enc : Bytes) (w : os.World)
      → empty t ≡ false
      → c_str (t ++ temp_file_util_suffix) ≡ c_str t
      → P.node w (t ++ temp_file_util_suffix) ≢ some device
      → (store_encrypted os m b t enc w).0 ≡ success
      → P.node (store_encrypted os m b t enc w).1 m ≡ some (file enc)
  unfolding store_encrypted
  store_encrypted-same enc w n e d h =
      elim (Bool-cases (is_success (atomic_write_file os t enc w).0)) [
        | inr f ↦ absurd (ground (arith, f, h, is_success-success))
        | inl f ↦
            let done = (is_success_iff (atomic_write_file os t enc w).0).0 f in
            let w1 = (atomic_write_file os t enc w).1 in
            let holds = atomic_write_file-same os P t n enc w e d done in
            let (there, same) =
              replace_main-same (back_up os m b w1) (rw (f, store_encrypted) at h) in
            rw (f, store_encrypted)
              (elim (back_up-Left w1) [
                | inl gone ↦ absurd (there gone)
                | inr kept ↦ same ∙ kept ∙ P.node_same w1 m t (sym t_m) ∙ holds
              ])
      ]
