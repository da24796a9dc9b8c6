-- ===== src/SemanticCache.antt =====
-- `SemanticCacheManager` of src/l3store/semantic_cache/cache_manager.py, and `SimilaritySearch` of
-- similarity_search.py. The object store that the manager shares is a field of its state; `embed` is
-- the embedding service, `now` is the clock at the call, and a new entry gets the meta data of its
-- default factory. A state stands beside what a method raises.
pub mod Answers
use intellil.Common.{
  ℕ, zero, suc, ◌==◌, string_key, String, Bool, true, false, not, ◌&&◌, Option, none, some, List,
  [], ◌∷◌, Result, ok, raise, value_error, ◌>>=◌, ◌>>◌, raise_if, or_else, if◌then◌else◌,
}
use intellil.Common.Float.{Float}
use intellil.Core.Enums.{semantic_cache}
use intellil.Core.Types.{ObjectMeta, SemanticCacheEntry}
use intellil.Metadata.Store.{
  Libraries, MetadataStore, MetadataStats, on_object_added, on_semantic_entry_added,
  on_object_removed, search_similar_prompts, stats,
}
use intellil.Storage.{Backend}
use intellil.Core.ObjectStore.{UnifiedObjectStore}
use intellil.Core.ObjectStore.Objects.{
  Serializer, ObjectsConfig, put_semantic_entry, get_semantic_entry, list_semantic_entries,
}

pub record SemanticCacheManager (F B Index : Type 0) : Type 0 where
  pub store : UnifiedObjectStore B Index
  pub threshold : F
  pub model_name : String

abbrev pub new_entry :
    {F : Type 0} → ObjectMeta F → String → String → String → F → SemanticCacheEntry F
new_entry meta prompt response model threshold = record {
  meta = meta;
  prompt_text = prompt;
  response_text = response;
  model_name = model;
  embedding_dim = 0;
  reuse_count = 0;
  similarity_threshold = threshold;
}

module _ {F Json Vector Index B Bytes : Type 0} ⦃fl : Float F⦄ (libs : Libraries F Vector Index)
    (b : Backend B Bytes) (ser : Serializer F Json Vector Bytes) (cfg : ObjectsConfig) where
  -- The body of the loop of `_load_existing_entries`, once the id is in the Bloom filter
  unfoldable pub load_entry :
      UnifiedObjectStore B Index → F → String → Result (Unit {0}) × UnifiedObjectStore B Index
  load_entry st now x = elim (get_semantic_entry libs b ser cfg st x now) [
    | raise err ↦ (raise err, st)
    | ok none ↦ (ok tt, st)
    | ok (some (entry, v)) ↦
        let (r, metadata) = on_semantic_entry_added libs st.metadata x v in
        (r, record st { metadata = metadata })
  ]

  unfoldable pub load_entries :
      UnifiedObjectStore B Index → F → List String → Result (Unit {0}) × UnifiedObjectStore B Index
  load_entries st now [] = (ok tt, st)
  load_entries st now (x ∷ ids) =
      let (r, metadata) = on_object_added libs st.metadata semantic_cache x none in
      let st' = record st { metadata = metadata } in
      elim r [
        | raise err ↦ (raise err, st')
        | ok _ ↦
            let (r', st'') = load_entry st' now x in
            elim r' [ raise err ↦ (raise err, st'') | ok _ ↦ load_entries st'' now ids ]
      ]

  unfoldable pub load_existing_entries :
      UnifiedObjectStore B Index → F → Result (Unit {0}) × UnifiedObjectStore B Index
  load_existing_entries st now = load_entries st now (list_semantic_entries libs b ser cfg st)

  -- `__init__`; the store, which is shared, keeps what was loaded where it raises.
  unfoldable pub init :
      UnifiedObjectStore B Index
      → F
      → String
      → F
      → Result (SemanticCacheManager F B Index) × UnifiedObjectStore B Index
  init st threshold model_name now =
      if not (fl.le (fl.of_nat 0) threshold && fl.le threshold (fl.of_nat 1))
      then (raise value_error, st)
      else let (r, st') = load_existing_entries st now in
        elim r [
          | raise err ↦ (raise err, st')
          | ok _ ↦
              (ok (record { store = st'; threshold = threshold; model_name = model_name }), st')
        ]

  module _ (embed : String → Vector) where
    -- What `get_or_generate` does where the cache has no answer; the generator may raise.
    unfoldable pub generate :
        SemanticCacheManager F B Index
        → String
        → (String → Result String)
        → ObjectMeta F
        → Result (String × Bool) × SemanticCacheManager F B Index
    generate m prompt generator meta = elim (generator prompt) [
      | raise err ↦ (raise err, m)
      | ok response ↦
          let entry = new_entry meta prompt response m.model_name m.threshold in
          let (r, store) = put_semantic_entry libs b ser cfg m.store entry (embed prompt) in
          elim r [
            | raise err ↦ (raise err, record m { store = store })
            | ok _ ↦ (ok (response, false), record m { store = store })
          ]
    ]

    -- `self._store.metadata.on_object_removed(...)`
    abbrev pub forget : SemanticCacheManager F B Index → String → SemanticCacheManager F B Index
    forget m x = record m {
      store = record m.store {
        metadata = on_object_removed libs m.store.metadata semantic_cache x;
      };
    }

    unfoldable pub answer :
        SemanticCacheManager F B Index
        → String
        → (String → Result String)
        → ObjectMeta F
        → F
        → List (String × F)
        → Result (String × Bool) × SemanticCacheManager F B Index
    answer m prompt generator meta now [] = generate m prompt generator meta
    answer m prompt generator meta now ((x, similarity) ∷ matches) =
        elim (get_semantic_entry libs b ser cfg m.store x now) [
          | raise err ↦ (raise err, m)
          | ok (some (entry, v)) ↦ (ok (entry.response_text, true), m)
          | ok none ↦ generate (forget m x) prompt generator meta
        ]

    unfoldable pub get_or_generate :
        SemanticCacheManager F B Index
        → String
        → (String → Result String)
        → ObjectMeta F
        → F
        → Result (String × Bool) × SemanticCacheManager F B Index
    get_or_generate m prompt generator meta now =
        elim (search_similar_prompts libs m.store.metadata (embed prompt) 1 m.threshold) [
          | raise err ↦ (raise err, m)
          | ok matches ↦ answer m prompt generator meta now matches
        ]

    unfoldable pub search : SemanticCacheManager F B Index → String → ℕ → Result (List (String × F))
    search m prompt k = search_similar_prompts libs m.store.metadata (embed prompt) k m.threshold

-- `stats`: the number of indexed entries, and the threshold
unfoldable pub cache_stats : {F B Index : Type 0} → SemanticCacheManager F B Index → ℕ × F
cache_stats m = ((stats m.store.metadata).hnsw_size, m.threshold)

pub record SimilaritySearch (F Index : Type 0) : Type 0 where
  pub metadata : MetadataStore Index
  pub default_k : ℕ
  pub default_threshold : F

module _ {F Vector Index : Type 0} ⦃fl : Float F⦄ (libs : Libraries F Vector Index) where
  unfoldable pub new_search : MetadataStore Index → ℕ → F → Result (SimilaritySearch F Index)
  new_search metadata k threshold = do
    raise_if (k == 0) value_error
    raise_if (not (fl.le (fl.of_nat 0) threshold && fl.le threshold (fl.of_nat 1))) value_error
    ok (record { metadata = metadata; default_k = k; default_threshold = threshold })

  -- `k or self._default_k`
  unfoldable pub chosen_k : Option ℕ → ℕ → ℕ
  chosen_k none d = d
  chosen_k (some zero) d = d
  chosen_k (some (suc k)) d = suc k

  unfoldable pub search_embedding :
      SimilaritySearch F Index → Vector → Option ℕ → Option F → Result (List (String × F))
  search_embedding s v k threshold =
      search_similar_prompts libs s.metadata v (chosen_k k s.default_k)
        (or_else threshold s.default_threshold)
