-- ===== src/Store/Refinement/Frame.antt =====
-- How the store and the files hold the versions of all ids, and what a call on one id leaves of that.
use secure_storage.Base.{◌≡◌, ◌≢◌, refl, sym, subst, ◌∙◌, inl, inr, none, List, [], Bool-cases}
use secure_storage.Base.Text.{Str, Bytes, str_eq, str_eq_iff}
use secure_storage.Error.{success}
use secure_storage.Os.{Os}
use secure_storage.Os.Posix.{IsPosix, IsBase, contents?}
use secure_storage.Crypto.{Mbedtls, IsLawful}
use secure_storage.Crypto.Encryptor.{ready?}
use secure_storage.Naming.{validate_data_id}
use secure_storage.Naming.Roles.{Named, Role, entry}
use secure_storage.Store.{SecureStore}
use secure_storage.Store.Lifecycle.{IsReady}
use secure_storage.Store.Refinement.{Versions, change}
use secure_storage.Store.Refinement.Cells.{Cell, Cell-same}

pub change-same : (data_id : Str) (l : List Bytes) (m : Versions) → change data_id l m data_id ≡ l
change-same data_id l m = rw ((str_eq_iff data_id data_id).1 refl) refl

pub change-other :
    (data_id : Str) (l : List Bytes) (m : Versions) (q : Str)
    → q ≢ data_id
    → change data_id l m q ≡ m q
change-other data_id l m q n = elim (Bool-cases (str_eq q data_id)) [
  | inl e ↦ absurd (n ((str_eq_iff q data_id).0 e))
  | inr e ↦ rw e refl
]

-- A change to what is there.
pub change_own : (data_id : Str) (m : Versions) (q : Str) → change data_id (m data_id) m q ≡ m q
change_own data_id m q = elim (Bool-cases (str_eq q data_id)) [
  | inl e ↦ rw (e, (str_eq_iff q data_id).0 e) refl
  | inr e ↦ rw e refl
]

module _ (os : Os) (P : IsPosix os) (mb : Mbedtls) (L : IsLawful mb) where
  -- The store and the file system hold the versions.
  pub record Rep (m : Versions) (s : SecureStore mb) (w : os.World) : Type 0 where
    pub ready : IsReady mb s
    pub base : IsBase s.root_storage_path
    pub works : ready? mb ready.e ≢ none
    pub no_others : (q : Str) → validate_data_id q ≢ success → m q ≡ []
    pub cells : (q : Str) → Named q → Cell os P mb L s.root_storage_path s.master_key q (m q) w

  -- A call on one id, that leaves the files of the others as they were.
  pub call-Rep :
      (m m' : Versions) (s s' : SecureStore mb) (w w' : os.World) (data_id : Str)
      → Rep m s w
      → (on : IsReady mb s') → ready? mb on.e ≢ none
      → s.root_storage_path ≡ s'.root_storage_path
      → s.master_key ≡ s'.master_key
      → validate_data_id data_id ≡ success
      → ((q : Str) → q ≢ data_id → m' q ≡ m q)
      → Cell os P mb L s.root_storage_path s.master_key data_id (m' data_id) w'
      → ((q : Str) (r : Role)
          → Named q
          → q ≢ data_id
          → contents? (P.node w' (entry s.root_storage_path q r))
            ≡ contents? (P.node w (entry s.root_storage_path q r)))
      → Rep m' s' w'
  call-Rep m m' s s' w w' data_id rep on works same_root same_key valid rest cell others = record {
    ready = on;
    base = subst IsBase same_root rep.base;
    works = works;
    no_others = λ q bad. rest q (λ e. bad (rw e valid)) ∙ rep.no_others q bad;
    cells = λ q good.
        rw (← same_root, ← same_key)
          (elim (Bool-cases (str_eq q data_id)) [
            | inl t ↦
                let e = (str_eq_iff q data_id).0 t in
                subst (λ x. Cell os P mb L s.root_storage_path s.master_key x (m' x) w') (sym e)
                  cell
            | inr f ↦
                let n : q ≢ data_id = λ e. cc (f, (str_eq_iff q data_id).1 e) in
                rw (rest q n) (
                  Cell-same os P mb L s.root_storage_path s.master_key q (m q) w w'
                    (λ r. others q r good n) (rep.cells q good))
          ]);
  }

  -- Another object for the same files.
  pub renewed-Rep :
      (m : Versions) (s s' : SecureStore mb) (w w' : os.World)
      → Rep m s w
      → (on : IsReady mb s') → ready? mb on.e ≢ none
      → s.root_storage_path ≡ s'.root_storage_path
      → s.master_key ≡ s'.master_key
      → ((q : Str) → contents? (P.node w' q) ≡ contents? (P.node w q))
      → Rep m s' w'
  renewed-Rep m s s' w w' rep on works same_root same_key same = record {
    ready = on;
    base = subst IsBase same_root rep.base;
    works = works;
    no_others = rep.no_others;
    cells = λ q good.
        rw (← same_root, ← same_key)
          (Cell-same os P mb L s.root_storage_path s.master_key q (m q) w w'
            (λ r. same (entry s.root_storage_path q r)) (rep.cells q good));
  }
