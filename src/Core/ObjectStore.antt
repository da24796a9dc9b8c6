-- ===== src/Core/ObjectStore.antt =====
-- `UnifiedObjectStore` of src/l3store/core/object_store.py: the helpers over which every method is
-- written. A method returns its result, or what it raises, beside the store that it leaves. The
-- caller's object, which a `put` also changes in place, is not part of the store. Log lines are left
-- out.
pub mod Pairs
pub mod Guards
pub mod Objects
pub mod Agent
pub mod Prefetch
pub mod RoundTrip
use Prim.Native.Char.{code}
use intellil.Common.{
  ℕ, ◌<◌, string_key, ◌==◌, ltb, String, Bool, true, false, not, Option, none, some, List, [], ◌∷◌,
  Result, ok, raise, ◌>>=◌, ◌>>◌, length, if◌then◌else◌, or_else,
}
use intellil.Common.Sort.{sort}
use intellil.Common.Sets.{add}
use intellil.Common.Float.{Float}
use intellil.Common.Dict.{Dict, keys}
use intellil.Core.Enums.{ObjectType}
use intellil.Metadata.Store
use intellil.Metadata.Store.{Libraries, MetadataStore}
use intellil.Storage.{Backend}
use intellil.Storage.Keys.{meta_ext, object_key}
use intellil.Storage.Memory.{le_text}

pub record UnifiedObjectStore (B Index : Type 0) : Type 0 where
  pub backend : B
  pub metadata : MetadataStore Index

-- The rest of `s` after the prefix `p`, or none if `s` does not begin with it.
unfoldable pub after_prefix : String → String → Option String
after_prefix s String.[] = some s
after_prefix String.[] (String.◌∷◌ d p) = none
after_prefix (String.◌∷◌ c s) (String.◌∷◌ d p) =
    let rest = after_prefix s p in if code c == code d then rest else none

-- `s.split(".")[0]`
unfoldable pub before_dot : String → String
before_dot String.[] = ""
before_dot (String.◌∷◌ c s) =
    let rest = before_dot s in if code c == 46 then "" else String.◌∷◌ c rest

-- `name`, in `_list_ids`
unfoldable pub name_of : String → String → String
name_of prefix key = before_dot (or_else (after_prefix key prefix) key)

unfoldable pub is_empty : String → Bool
is_empty String.[] = true
is_empty (String.◌∷◌ c s) = false

unfoldable pub names_of : String → List String → List String
names_of prefix [] = []
names_of prefix (k ∷ ks) =
    let name = name_of prefix k in
    let rest = names_of prefix ks in if is_empty name then rest else add rest name

module _ {B Bytes : Type 0} (b : Backend B Bytes) where
  -- `_put_pair`: if the second `put` raises, the first key is deleted
  unfoldable pub put_pair : B → String → Bytes → String → Bytes → Result (Unit {0}) × B
  put_pair s meta_key meta_bytes data_key data_bytes =
      let (r, s') = b.put s meta_key meta_bytes in
      elim r [
        | raise e ↦ (raise e, s')
        | ok _ ↦
            let (r', s'') = b.put s' data_key data_bytes in
            elim r' [ raise e ↦ (raise e, (b.delete s'' meta_key).0) | ok _ ↦ (ok tt, s'') ]
      ]

  unfoldable pub get_pair : B → String → String → Option (Bytes × Bytes)
  get_pair s meta_key data_key = elim (b.get s meta_key) [
    | none ↦ none
    | some meta_data ↦ elim (b.get s data_key) [
      | none ↦ none
      | some data_bytes ↦ some (meta_data, data_bytes)
    ]
  ]

  unfoldable pub delete_pair : B → String → String → String → B × Bool
  delete_pair s prefix x data_ext =
      let (s', n) =
        b.delete_many s (object_key prefix x meta_ext ∷ object_key prefix x data_ext ∷ []) in
      (s', ltb 0 n)

module _ {F Vector Index B Bytes : Type 0} ⦃fl : Float F⦄ (libs : Libraries F Vector Index)
    (b : Backend B Bytes) where
  -- A write to the backend; if it does not raise, a change of the metadata; then the id.
  unfoldable pub put_and_index :
      UnifiedObjectStore B Index
      → (B → Result (Unit {0}) × B)
      → (MetadataStore Index → Result (Unit {0}) × MetadataStore Index)
      → String
      → Result String × UnifiedObjectStore B Index
  put_and_index st write index x =
      let (r, s') = write st.backend in
      elim r [
        | raise e ↦ (raise e, record st { backend = s' })
        | ok _ ↦
            let (r', m) = index st.metadata in (do r'; ok x, record { backend = s'; metadata = m })
      ]

  -- A read that the Bloom filter guards.
  unfoldable pub get_guarded :
      {T : Type 0} → UnifiedObjectStore B Index → String → Result (Option T) → Result (Option T)
  get_guarded st x found = elim (Store.might_exist libs st.metadata x) [
    | raise e ↦ raise e
    | ok false ↦ ok none
    | ok true ↦ found
  ]

  -- The metadata after a deletion that answered `result`.
  unfoldable pub delete_and_unindex :
      UnifiedObjectStore B Index
      → ObjectType
      → String
      → B × Bool
      → UnifiedObjectStore B Index × Bool
  delete_and_unindex st type x (s', result) = (
    record {
      backend = s';
      metadata = if result then Store.on_object_removed libs st.metadata type x else st.metadata;
    },
    result,
  )

  unfoldable pub put_meta_object :
      UnifiedObjectStore B Index
      → String
      → String
      → Bytes
      → ObjectType
      → Result String × UnifiedObjectStore B Index
  put_meta_object st prefix x meta_bytes type =
      put_and_index st (λ s. b.put s (object_key prefix x meta_ext) meta_bytes)
        (λ m. Store.on_object_added libs m type x none) x

  -- `deserialize` stands for the reading of the bytes and the `touch` after it.
  unfoldable pub get_meta_object :
      {T : Type 0}
      → UnifiedObjectStore B Index
      → String
      → String
      → (Bytes → Result T)
      → Result (Option T)
  get_meta_object st prefix x deserialize =
      get_guarded st x (elim (b.get st.backend (object_key prefix x meta_ext)) [
        | none ↦ ok none
        | some meta_data ↦ do obj ← deserialize meta_data; ok (some obj)
      ])

  unfoldable pub delete_meta_object :
      UnifiedObjectStore B Index → String → String → ObjectType → UnifiedObjectStore B Index × Bool
  delete_meta_object st prefix x type =
      delete_and_unindex st type x (b.delete st.backend (object_key prefix x meta_ext))

  -- A pair that is put, and the metadata after it.
  unfoldable pub put_object :
      UnifiedObjectStore B Index
      → String
      → String
      → String
      → Bytes
      → Bytes
      → (MetadataStore Index → Result (Unit {0}) × MetadataStore Index)
      → Result String × UnifiedObjectStore B Index
  put_object st prefix x data_ext meta_bytes data_bytes index =
      put_and_index st
        (λ s.
          put_pair b s (object_key prefix x meta_ext) meta_bytes (object_key prefix x data_ext)
            data_bytes)
        index x

  unfoldable pub get_object :
      {T : Type 0}
      → UnifiedObjectStore B Index
      → String
      → String
      → String
      → (Bytes → Bytes → Result T)
      → Result (Option T)
  get_object st prefix x data_ext deserialize =
      get_guarded st x
        (elim (get_pair b st.backend (object_key prefix x meta_ext)
          (object_key prefix x data_ext)) [
            | none ↦ ok none
            | some (meta_data, data_bytes) ↦ do
              obj ← deserialize meta_data data_bytes
              ok (some obj)
          ])

  unfoldable pub delete_object :
      UnifiedObjectStore B Index
      → ObjectType
      → String
      → String
      → String
      → UnifiedObjectStore B Index × Bool
  delete_object st type prefix x data_ext =
      delete_and_unindex st type x (delete_pair b st.backend prefix x data_ext)

  unfoldable pub list_ids : UnifiedObjectStore B Index → String → List String
  list_ids st prefix = sort le_text (names_of prefix (b.list_keys st.backend prefix))
