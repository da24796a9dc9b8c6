-- ===== src/Storage.antt =====
-- l3store/storage: the interface `StorageBackend` of src/l3store/storage/backend.py with what its
-- clients rely on, and `MemoryBackend` of src/l3store/storage/memory_backend.py.
pub mod Memory
pub mod Keys
use intellil.Common.{
  ℕ, zero, suc, ◌<◌, ◌+◌, string_key, String, Bool, true, false, Option, none, some, List, [], ◌∷◌,
  ◌≡◌, In, ◌≟◌, ite, Result, ok, raise, Error, is_some, if◌then◌else◌,
}
use intellil.Common.Sets.{member}

-- Only `put` is taken to raise: its failure is the one that the program handles.
pub record Backend (B Bytes : Type 0) : Type 0 where
  pub put : B → String → Bytes → Result (Unit {0}) × B
  pub get : B → String → Option Bytes
  pub delete : B → String → B × Bool
  pub delete_many : B → List String → B × ℕ
  pub list_keys : B → String → List String

-- `StorageBackend.delete_many`, for a backend that does not override it
unfoldable pub default_delete_many :
    {B : Type 0} → (B → String → B × Bool) → B → List String → B × ℕ
default_delete_many delete s [] = (s, 0)
default_delete_many delete s (k ∷ keys) =
    let (s', existed) = delete s k in
    let (s'', count) = default_delete_many delete s' keys in
    (s'', if existed then suc count else count)

-- What the object store relies on. `delete_many` counts at least the keys that were there.
pub record IsStorage {B Bytes : Type 0} (b : Backend B Bytes) : Type 0 where
  pub get-put :
      (s s' : B) (k j : String) (v : Bytes)
      → b.put s k v ≡ (ok tt, s')
      → b.get s' j ≡ ite (k ≟ j) (some v) (b.get s j)
  pub get-put_failed :
      (s s' : B) (k j : String) (v : Bytes) (e : Error)
      → b.put s k v ≡ (raise e, s')
      → b.get s' j ≡ b.get s j
  pub get-delete : (s : B) (k j : String) → b.get (b.delete s k).0 j ≡ ite (k ≟ j) none (b.get s j)
  pub delete_answer : (s : B) (k : String) → (b.delete s k).1 ≡ is_some (b.get s k)
  pub get-delete_many :
      (s : B) (keys : List String) (j : String)
      → b.get (b.delete_many s keys).0 j ≡ (if member keys j then none else b.get s j)
  pub delete_many_some :
      (s : B) (keys : List String) (k : String) {v : Bytes}
      → In k keys
      → b.get s k ≡ some v
      → 0 < (b.delete_many s keys).1
