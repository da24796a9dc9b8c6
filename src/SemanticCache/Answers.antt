-- ===== src/SemanticCache/Answers.antt =====
-- What the semantic cache of src/l3store/semantic_cache/cache_manager.py answers.
use intellil.Common.{
  ◌≢◌, string_key, String, Bool, true, false, Option, none, some, List, [], ◌∷◌, ◌≡◌, refl, ap, ◌∙◌,
  inl, inr, ◌⊎◌, Result, ok, raise, Option-cases, Result-cases, Error, All, All-map,
}
use intellil.Common.Float.{Float}
use intellil.Common.Dict.{has, get}
use intellil.Core.Types.{ObjectMeta, SemanticCacheEntry}
use intellil.Metadata.Hnsw.{HnswIndex, has_dim, remove}
use intellil.Metadata.Hnsw.Labels
use intellil.Metadata.Hnsw.Results.{IsHit, search-IsHit}
use intellil.Metadata.Store.{Libraries, search_similar_prompts, on_object_removed}
use intellil.Metadata.Store.Existence.{IsValid}
use intellil.Storage.{Backend}
use intellil.Core.ObjectStore.{UnifiedObjectStore}
use intellil.Core.ObjectStore.Objects.{
  Serializer, ObjectsConfig, put_semantic_entry, get_semantic_entry,
}
use intellil.SemanticCache.{
  SemanticCacheManager, new_entry, generate, forget, answer, get_or_generate,
}

module _ {F Json Vector Index B Bytes : Type 0} ⦃fl : Float F⦄ (libs : Libraries F Vector Index)
    (b : Backend B Bytes) (ser : Serializer F Json Vector Bytes) (cfg : ObjectsConfig)
    (embed : String → Vector) where
  -- A miss, from the cache `before`: what the generator answered goes to the store under a new entry,
  -- and is returned, marked as a miss, unless the store raises.
  pub record IsGenerated (before : SemanticCacheManager F B Index) (prompt response : String)
      (meta : ObjectMeta F) (r : Result (String × Bool) × SemanticCacheManager F B Index)
      : Type 0 where
    pub returned :
        (x : String)
        → (put_semantic_entry libs b ser cfg before.store
            (new_entry meta prompt response before.model_name before.threshold)
            (embed prompt)).0
          ≡ ok x
        → r.0 ≡ ok (response, false)
    pub raised :
        (err : Error)
        → (put_semantic_entry libs b ser cfg before.store
            (new_entry meta prompt response before.model_name before.threshold)
            (embed prompt)).0
          ≡ raise err
        → r.0 ≡ raise err
    pub written : r.1 ≡ record before {
      store =
          (put_semantic_entry libs b ser cfg before.store
            (new_entry meta prompt response before.model_name before.threshold)
            (embed prompt)).1;
    }

  generate-IsGenerated :
      (before : SemanticCacheManager F B Index) (prompt response : String)
      (generator : String → Result String) (meta : ObjectMeta F)
      → generator prompt ≡ ok response
      → IsGenerated before prompt response meta
          (generate libs b ser cfg embed before prompt generator meta)
  unfolding generate
  generate-IsGenerated before prompt response generator meta generated =
      let put =
        put_semantic_entry libs b ser cfg before.store
          (new_entry meta prompt response before.model_name before.threshold) (embed prompt) in
      elim (Result-cases put.0) [
        | inl (x, fine) ↦
            let state : generate libs b ser cfg embed before prompt generator meta
                ≡ (ok (response, false), record before { store = put.1 }) =
              rw (generate, generated, fine) refl in
            rw state (record {
              returned = λ x' e. refl;
              raised = λ err e. absurd (cc (e, fine));
              written = refl;
            })
        | inr (err, failed) ↦
            let state : generate libs b ser cfg embed before prompt generator meta
                ≡ (raise err, record before { store = put.1 }) =
              rw (generate, generated, failed) refl in
            rw state (record {
              returned = λ x' e. absurd (cc (e, failed));
              raised = λ err' e. cc (e, failed);
              written = refl;
            })
      ]

  -- The cache once an id has been taken off the index: the index, where there is one, has not the id
  -- any more and has the others as before, and the rest is as it was.
  pub record IsForgotten (m : SemanticCacheManager F B Index) (x : String)
      (before : SemanticCacheManager F B Index) : Type 0 where
    pub same_backend : before.store.backend ≡ m.store.backend
    pub same_threshold : before.threshold ≡ m.threshold
    pub same_model : before.model_name ≡ m.model_name
    pub index :
        (h : HnswIndex Index)
        → m.store.metadata.hnsw ≡ some h
        → (h' : HnswIndex Index) × (before.store.metadata.hnsw ≡ some h')
          × (get h'.object_to_id x ≡ none)
          × ((y : String) → x ≢ y → get h'.object_to_id y ≡ get h.object_to_id y)

  forget-IsForgotten :
      (m : SemanticCacheManager F B Index) (x : String)
      → IsValid m.store.metadata
      → IsForgotten m x (forget libs b ser cfg embed m x)
  unfolding on_object_removed
  forget-IsForgotten m x valid = record {
    same_backend = refl;
    same_threshold = refl;
    same_model = refl;
    index = λ h indexed.
        let (_, _, gone, others) = Labels.remove-Removed libs.hnswlib h x (valid.hnsw h indexed) in
        ((remove libs.hnswlib h x).0, rw (on_object_removed, indexed) refl, gone, others);
  }

  -- The store can be read at an id.
  abbrev pub Readable : UnifiedObjectStore B Index → F → String → Type 0
  Readable st now x =
      (found : Option (SemanticCacheEntry F × Vector)) × (get_semantic_entry libs b ser cfg st x now
        ≡ ok found)

  -- What is answered where the search has found `matches`. Where it has found nothing, a miss. Where
  -- the store has the entry of the nearest id, its response, marked as a hit, and nothing changes.
  -- Where the store has it not, a miss once the id has been taken off the index.
  abbrev pub Answered :
      SemanticCacheManager F B Index
      → String
      → String
      → ObjectMeta F
      → F
      → List (String × F)
      → Result (String × Bool) × SemanticCacheManager F B Index
      → Type 0
  Answered m prompt response meta now [] r = IsGenerated m prompt response meta r
  Answered m prompt response meta now ((x, similarity) ∷ matches) r =
      ((entry : SemanticCacheEntry F) × (v : Vector) × (get_semantic_entry libs b ser cfg m.store x
            now
          ≡ ok (some (entry, v)))
        × (fl.le m.threshold similarity ≡ true)
        × (r ≡ (ok (entry.response_text, true), m)))
      ⊎ ((before : SemanticCacheManager F B Index) × (get_semantic_entry libs b ser cfg m.store x
              now
            ≡ ok none)
          × IsForgotten m x before
          × IsGenerated before prompt response meta r)

  answer-Answered :
      (m : SemanticCacheManager F B Index) (prompt response : String)
      (generator : String → Result String) (meta : ObjectMeta F) (now : F)
      (matches : List (String × F))
      → IsValid m.store.metadata
      → All (λ (e : String × F). Readable m.store now e.0 × (fl.le m.threshold e.1 ≡ true)) matches
      → generator prompt ≡ ok response
      → Answered m prompt response meta now matches
          (answer libs b ser cfg embed m prompt generator meta now matches)
  unfolding answer
  answer-Answered m prompt response generator meta now [] valid all generated =
      generate-IsGenerated m prompt response generator meta generated
  answer-Answered m prompt response generator meta now ((x, s) ∷ matches) valid
        (((found, read), close), all) generated =
      elim (Option-cases found) [
        | inl gone ↦
            let gone' = read ∙ ap ok gone in
            let before = forget libs b ser cfg embed m x in
            let state : answer libs b ser cfg embed m prompt generator meta now ((x, s) ∷ matches)
                ≡ generate libs b ser cfg embed before prompt generator meta =
              rw (answer, gone') refl in
            rw state (
              inr (
                before,
                gone',
                forget-IsForgotten m x valid,
                generate-IsGenerated before prompt response generator meta generated,
              ))
        | inr ((entry, v), there) ↦
            let stored = read ∙ ap ok there in
            inl (entry, v, stored, close, rw (answer, stored) refl)
      ]

  -- What is asked of the metadata store: it is valid, the vector of the prompt has the dimension of its
  -- index, and the object store can be read at the ids of the index.
  pub record IsReady (m : SemanticCacheManager F B Index) (prompt : String) (now : F) : Type 0 where
    pub valid : IsValid m.store.metadata
    pub fits :
        (h : HnswIndex Index)
        → m.store.metadata.hnsw ≡ some h
        → has_dim h.dim (libs.hnswlib.shape (embed prompt)) ≡ true
    pub readable :
        (h : HnswIndex Index) (x : String)
        → m.store.metadata.hnsw ≡ some h
        → has h.object_to_id x ≡ true
        → Readable m.store now x

  -- On a ready cache, and where the generator returns, `get_or_generate` searches the index for the
  -- nearest id. Where the store has its entry, whose similarity reaches the threshold, it returns the
  -- response of the entry, marked as a hit, and changes nothing. Where there is no such id, or the
  -- store has no entry of it, it puts the response of the generator in the store under a new entry
  -- and returns it, marked as a miss, or raises what the store raises; in the second case the id has
  -- first been taken off the index, which keeps the others.
  pub get_or_generate-Answered :
      (m : SemanticCacheManager F B Index) (prompt response : String)
      (generator : String → Result String) (meta : ObjectMeta F) (now : F)
      → IsReady m prompt now
      → generator prompt ≡ ok response
      → (matches : List (String × F)) × (search_similar_prompts libs m.store.metadata
            (embed prompt)
            1
            m.threshold
          ≡ ok matches)
        × Answered m prompt response meta now matches
            (get_or_generate libs b ser cfg embed m prompt generator meta now)
  unfolding get_or_generate search_similar_prompts
  get_or_generate-Answered m prompt response generator meta now ready generated =
      let (matches, searched, close) = nearest m prompt now ready in
      (
        matches,
        searched,
        rw (get_or_generate, searched)
            (answer-Answered m prompt response generator meta now matches ready.valid close
              generated),
      )
    where
      nearest :
          (m : SemanticCacheManager F B Index) (prompt : String) (now : F)
          → IsReady m prompt now
          → (matches : List (String × F)) × (search_similar_prompts libs m.store.metadata
                (embed prompt)
                1
                m.threshold
              ≡ ok matches)
            × All
                (λ (e : String × F). Readable m.store now e.0 × (fl.le m.threshold e.1 ≡ true))
                matches
      nearest m prompt now ready = elim (Option-cases m.store.metadata.hnsw) [
        | inl no_index ↦ ([], rw (search_similar_prompts, no_index) refl, tt)
        | inr (h, indexed) ↦
            let (matches, found, hits, few) =
              search-IsHit libs.hnswlib h (embed prompt) 1 m.threshold (ready.valid.hnsw h indexed)
                (ready.fits h indexed) in
            (
              matches,
              rw (search_similar_prompts, indexed) found,
              All-map (IsHit libs.hnswlib h m.threshold)
                  (λ (e : String × F). Readable m.store now e.0 × (fl.le m.threshold e.1 ≡ true))
                  (λ e (hit : IsHit libs.hnswlib h m.threshold e).
                    (ready.readable h e.0 indexed hit.0, hit.1))
                  matches hits,
            )
      ]
